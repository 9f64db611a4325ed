-- ===== src/Cnp/Address.antt =====
-- utils/cnpForm.ts: what counts as an IPv4 or IPv6 address or CIDR.
pub mod Normal
use k8s_sentinel.Base.{
  Text, trim, includes, split, length, all, is_empty, is_digit, number_from, leb, ◌==◌,
  if◌then◌else◌, ◌&&◌, ◌||◌, not, Bool, false, List, [], ◌∷◌, ◌++◌, ℕ, lit,
}

-- /^(0|[1-9]\d{0,n})$/
unfoldable pub is_plain_number : ℕ → Text → Bool
is_plain_number n [] = false
is_plain_number n (c ∷ s) =
    ((c == b'0') && is_empty s) || (leb b'1' c && leb c b'9' && all is_digit s && leb (length s) n)

unfoldable pub is_octet : Text → Bool
unfolding is_plain_number number_from
is_octet o = is_plain_number 2 o && leb (number_from 0 o) 255

unfoldable pub is_v4_address : Text → Bool
unfolding is_octet split
is_v4_address addr = (length (split b'.' addr) == 4) && all is_octet (split b'.' addr)

-- The prefix after the slash, where `more` is the number of digits after the first.
unfoldable pub is_prefix : ℕ → ℕ → Text → Bool
unfolding is_plain_number number_from
is_prefix more most prefix = is_plain_number more prefix && leb (number_from 0 prefix) most

-- `v.split('/')` is the address, the prefix and a third part that must not be there.
unfoldable pub is_v4_cidr_parts : List Text → Bool
unfolding is_v4_address is_prefix
is_v4_cidr_parts [] = false
is_v4_cidr_parts (addr ∷ []) = is_v4_address addr
is_v4_cidr_parts (addr ∷ prefix ∷ []) = is_prefix 1 32 prefix && is_v4_address addr
is_v4_cidr_parts (addr ∷ prefix ∷ extra ∷ _) = false

unfoldable pub is_v4_cidr : Text → Bool
unfolding is_v4_cidr_parts split
is_v4_cidr v = is_v4_cidr_parts (split b'/' v)

-- /[0-9a-fA-F:]/
abbrev pub is_v6_char : ℕ → Bool
is_v6_char c = is_digit c || (leb b'a' c && leb c b'f') || (leb b'A' c && leb c b'F') || (c == b':')

-- `addr.match(/::/g).length`: matches do not overlap.
unfoldable pub count_double_colon : Text → ℕ
count_double_colon [] = 0
count_double_colon (c ∷ []) = 0
count_double_colon (c ∷ d ∷ s) =
    let rest = count_double_colon s in
    let skip = count_double_colon (d ∷ s) in
    if (c == b':') && (d == b':') then Prim.Native.Nat.suc rest else skip

unfoldable pub is_v6_address : Text → Bool
unfolding includes count_double_colon split
is_v6_address addr =
    not (is_empty addr)
    && all is_v6_char addr
    && includes addr (lit ":")
    && not (includes addr (lit ":::"))
    && leb (count_double_colon addr) 1
    && all (λ g. leb (length g) 4) (split b':' addr)

unfoldable pub is_v6_cidr_parts : List Text → Bool
unfolding is_v6_address is_prefix
is_v6_cidr_parts [] = false
is_v6_cidr_parts (addr ∷ []) = is_v6_address addr
is_v6_cidr_parts (addr ∷ prefix ∷ []) = is_prefix 2 128 prefix && is_v6_address addr
is_v6_cidr_parts (addr ∷ prefix ∷ extra ∷ _) = false

unfoldable pub is_v6_cidr : Text → Bool
unfolding is_v6_cidr_parts split
is_v6_cidr v = is_v6_cidr_parts (split b'/' v)

-- A bare address becomes a single-host CIDR.
unfoldable pub normalize_cidr : Text → Text
unfolding includes trim
normalize_cidr v =
    if includes (trim v) (lit "/")
    then trim v
    else if includes (trim v) (lit ":")
    then trim v ++ lit "/128"
    else trim v ++ lit "/32"
