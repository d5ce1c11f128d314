-- ===== src/Config/Load/Formats.antt =====
-- The formats of internal/config/config.go: the two patterns, and integers.
use inferia_worker.Common.{
  ℕ, zero, suc, ◌+◌, ◌-◌, ◌*◌, ◌^◌, String, List, [], ◌∷◌, Bool, true, false, not, ◌&&◌, ◌||◌,
  Option, none, some, ite, string_dec, ltb, leb, ◌==◌, if◌then◌else◌, codes,
}

abbrev pub is_empty : String → Bool
is_empty s = ite (string_dec s "") true false

-- The patterns, character by character.
is_hex : ℕ → Bool
is_hex c = (leb 48 c && leb c 57) || (leb 97 c && leb c 102) || (leb 65 c && leb c 70)

-- The numbers of hexadecimal digits of the groups, with a dash between two groups.
groups : ℕ → List ℕ → List ℕ → Bool
unfolding is_hex
groups zero [] [] = true
groups zero [] (c ∷ cs) = false
groups zero (n ∷ ns) [] = false
groups zero (n ∷ ns) (c ∷ cs) = let rest = groups n ns cs in c == 45 && rest
groups (suc n) ns [] = false
groups (suc n) ns (c ∷ cs) = let rest = groups n ns cs in is_hex c && rest

unfoldable pub uuid_pattern : String → Bool
unfolding groups
uuid_pattern s = groups 8 (4 ∷ 4 ∷ 4 ∷ 12 ∷ []) (codes s)

is_name_char : ℕ → Bool
is_name_char c =
    (leb 65 c && leb c 90)
    || (leb 97 c && leb c 122)
    || (leb 48 c && leb c 57)
    || c == 46
    || c == 95
    || c == 45

all_name : List ℕ → Bool
unfolding is_name_char
all_name [] = true
all_name (c ∷ cs) = let rest = all_name cs in is_name_char c && rest

unfoldable pub node_name_pattern : String → Bool
unfolding all_name
node_name_pattern s = not (is_empty s) && all_name (codes s)

-- strconv.Atoi: an optional sign and decimal digits, within 64 bits.
pub data ℤ : Type 0 where
  pos negsuc : ℕ → ℤ

neg : ℕ → ℤ
neg zero = pos 0
neg (suc n) = negsuc n

digits_from : ℕ → List ℕ → Option ℕ
digits_from n [] = some n
digits_from n (c ∷ cs) =
    let rest = digits_from (10 * n + (c - 48)) cs in if leb 48 c && leb c 57 then rest else none

digits : List ℕ → Option ℕ
unfolding digits_from
digits [] = none
digits (c ∷ cs) = digits_from 0 (c ∷ cs)

positive : List ℕ → Option ℤ
unfolding digits
positive cs = elim (digits cs) [
  | none ↦ none
  | some n ↦ if ltb n (2 ^ 63) then some (pos n) else none
]

negative : List ℕ → Option ℤ
unfolding digits neg
negative cs = elim (digits cs) [
  | none ↦ none
  | some n ↦ if leb n (2 ^ 63) then some (neg n) else none
]

unfoldable pub atoi : List ℕ → Option ℤ
unfolding positive negative
atoi [] = none
atoi (c ∷ cs) = if c == 43 then positive cs else if c == 45 then negative cs else positive (c ∷ cs)
