-- ===== src/Export.antt =====
-- utils/csv.ts, utils/exportEvents.ts, utils/ruleType.ts: the classification of an event's rule and
-- the CSV files. The text of the file is what is modelled; the download is the browser's.
pub mod Parse
mod Tests
use k8s_sentinel.Base.{
  Text, lit, upper, includes, decimal, any, join, if◌then◌else◌, ◌==◌, ◌||◌, Bool, true, false,
  List, [], ◌∷◌, ◌++◌, map, flat_map, is_empty, Option, none, some, or_else, ℕ, zero, suc,
}
use k8s_sentinel.Events.{DisplayEvent}

pub data RuleType : Type 0 where
  file network process kernel : RuleType

abbrev pub file_functions : List Text
file_functions =
    lit "file_permission"
    ∷ lit "mmap_file"
    ∷ lit "path_truncate"
    ∷ lit "file_open"
    ∷ lit "sys_read"
    ∷ lit "sys_write"
    ∷ lit "sys_open"
    ∷ []

abbrev pub network_functions : List Text
network_functions =
    lit "tcp_connect"
    ∷ lit "tcp_sendmsg"
    ∷ lit "udp"
    ∷ lit "inet_csk_accept"
    ∷ lit "socket_connect"
    ∷ lit "socket_bind"
    ∷ lit "deny"
    ∷ []

abbrev pub process_functions : List Text
process_functions = lit "execve" ∷ lit "bprm" ∷ []

unfoldable pub rule_type : Text → Option RuleType
unfolding includes
rule_type [] = none
rule_type (c ∷ fn) =
    if any (includes (c ∷ fn)) file_functions
    then some file
    else if any (includes (c ∷ fn)) network_functions
    then some network
    else if any (includes (c ∷ fn)) process_functions
    then some process
    else some kernel

abbrev pub rule_name : Option RuleType → Text
rule_name none = []
rule_name (some file) = lit "File"
rule_name (some network) = lit "Network"
rule_name (some process) = lit "Process"
rule_name (some kernel) = lit "Kernel"

unfoldable pub user_label : Option ℕ → Text
user_label none = []
user_label (some uid) = if uid == 0 then lit "root (uid=0)" else lit "uid=" ++ decimal uid

abbrev pub columns : List Text
columns =
    lit "Time"
    ∷ lit "Severity"
    ∷ lit "Rule"
    ∷ lit "Namespace"
    ∷ lit "Pod"
    ∷ lit "Binary"
    ∷ lit "Policy"
    ∷ lit "Node"
    ∷ lit "User"
    ∷ lit "File Op"
    ∷ lit "File Path"
    ∷ lit "Destination"
    ∷ lit "Source"
    ∷ []

-- ` / ${e.container}`, if there is one.
abbrev container_part : Option Text → Text
container_part none = []
container_part (some c) = if is_empty c then [] else lit " / " ++ c

unfoldable pub to_row : DisplayEvent → List Text
unfolding user_label rule_type upper
to_row e =
    e.time
    ∷ upper e.severity
    ∷ rule_name (rule_type (or_else e.function []))
    ∷ e.namespace
    ∷ (e.pod ++ container_part e.container)
    ∷ or_else e.binary []
    ∷ or_else e.policy_name []
    ∷ or_else e.node_name []
    ∷ user_label e.process_uid
    ∷ or_else e.file_op []
    ∷ or_else e.file_path []
    ∷ or_else e.net_dest []
    ∷ or_else e.net_src []
    ∷ []

-- `v.replace(/"/g, '""')`
unfoldable pub double_quotes : Text → Text
double_quotes [] = []
double_quotes (c ∷ s) =
    let rest = double_quotes s in if c == b'"' then b'"' ∷ b'"' ∷ rest else c ∷ rest

-- A field between quotes.
unfoldable pub escape : Text → Text
unfolding double_quotes
escape v = b'"' ∷ (double_quotes v ++ b'"' ∷ [])

abbrev pub comma : Text
comma = b',' ∷ []

abbrev pub crlf : Text
crlf = 13 ∷ 10 ∷ []

unfoldable pub csv_row : List Text → Text
unfolding join
csv_row r = join comma (map escape r)

-- The text of the file that `downloadCSV` saves, after the byte order mark.
unfoldable pub download_csv : List Text → List (List Text) → Text
unfolding csv_row join
download_csv headers rows = join crlf (map csv_row (headers ∷ rows))

-- The text of the file that `exportCSV` saves, after the byte order mark.
unfoldable pub export_csv : List DisplayEvent → Text
unfolding csv_row join to_row
export_csv events = join crlf (csv_row columns ∷ map (λ e. csv_row (to_row e)) events)
