-- ===== src/Export/Tests.antt =====
-- Concrete tables, and the theorems at them.
use k8s_sentinel.Base.{lit, includes, [], ◌∷◌, none, some, ◌≡◌, refl}
use k8s_sentinel.Events.{DisplayEvent}
use k8s_sentinel.Export.{
  file, network, kernel, rule_type, escape, csv_row, download_csv, columns, to_row, export_csv,
}
use k8s_sentinel.Export.Parse.{read_csv, read_csv-export_csv}

classes :
    (rule_type (lit "security_file_permission") ≡ some file)
    × (rule_type (lit "tcp_connect") ≡ some network)
    × (rule_type (lit "kmem_alloc") ≡ some kernel)
    × (rule_type [] ≡ none)
unfolding rule_type includes lit
classes = (refl, refl, refl, refl)

quoted : csv_row (lit "a\"b" ∷ lit "c,d" ∷ []) ≡ lit "\"a\"\"b\",\"c,d\""
unfolding csv_row escape lit
quoted = refl

abbrev write_event : DisplayEvent
write_event = record {
  id = lit "1";
  time = lit "2026-01-02 03:04:05";
  count = 1;
  severity = lit "critical";
  namespace = lit "shop";
  pod = lit "web-0";
  container = some (lit "app");
  node_name = none;
  binary = some (lit "/bin/sh");
  arguments = none;
  parent_bin = none;
  function = some (lit "security_file_permission");
  hook = none;
  policy_name = none;
  action = none;
  process_uid = some 0;
  file_path = some (lit "/etc/a,\"b\"");
  file_op = some (lit "write");
  net_dest = none;
  net_src = none;
  drop_reason = none;
}

read_csv-export_csv_example :
    (export_csv (write_event ∷ []) ≡ download_csv columns (to_row write_event ∷ []))
    × (read_csv (export_csv (write_event ∷ [])) ≡ some (columns ∷ to_row write_event ∷ []))
read_csv-export_csv_example = read_csv-export_csv (write_event ∷ [])
