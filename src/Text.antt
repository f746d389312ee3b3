-- ===== src/Text.antt =====
-- cpp/text_utils.cpp: the string helpers that every other part goes through.
pub mod Trim
use did_vc.Base.{
  ℕ, ◌+◌, Str, codes, str_eq, is_empty, Bool, true, false, ◌&&◌, ◌||◌, leb, ◌==◌, if◌then◌else◌, [],
  ◌∷◌, map, ltb, length, take, drop, ◌-◌,
}

-- `std::isspace` in the C locale: tab to carriage return, and the blank.
unfoldable pub is_space : ℕ → Bool
is_space c = (leb 9 c && leb c 13) || c == 32

-- The loop on `first`.
unfoldable pub trim_front : Str → Str
trim_front [] = []
trim_front (c ∷ s) = if is_space c then trim_front s else c ∷ s

-- The loop on `last`: drops a character that only blanks follow.
unfoldable pub trim_back : Str → Str
trim_back [] = []
trim_back (c ∷ s) = let rest = trim_back s in if is_empty rest && is_space c then [] else c ∷ rest

unfoldable pub trim_copy : Str → Str
trim_copy s = trim_back (trim_front s)

-- `std::tolower` in the C locale.
unfoldable pub to_lower : ℕ → ℕ
to_lower c = if leb 65 c && leb c 90 then c + 32 else c

unfoldable pub lower_copy : Str → Str
lower_copy s = map to_lower s

-- `s.size() >= prefix.size() && s.compare(0, prefix.size(), prefix) == 0`.
unfoldable pub starts_with : Str → Str → Bool
starts_with s prefix = leb (length prefix) (length s) && str_eq (take (length prefix) s) prefix

unfoldable pub ends_with : Str → Str → Bool
ends_with s suffix =
    leb (length suffix) (length s) && str_eq (drop (length s - length suffix) s) suffix

unfoldable pub parse_boolish : Str → Bool → Bool
parse_boolish s def =
    let v = lower_copy (trim_copy s) in
    if str_eq v (codes "1")
      || str_eq v (codes "true")
      || str_eq v (codes "yes")
      || str_eq v (codes "on")
    then true
    else if str_eq v (codes "0")
        || str_eq v (codes "false")
        || str_eq v (codes "no")
        || str_eq v (codes "off")
    then false
    else def
