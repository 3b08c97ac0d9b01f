-- ===== src/Plugin/SemVer.antt =====
-- src/plugin/validation.ts: parseSemVer, compareSemVer and satisfiesMinVersion. A text is the list of its
-- character codes where it is read. What `localeCompare` answers depends on the locale of the machine, so it
-- is the parameter `collate`; of a comparison only the sign is kept.
use Prim.Native.Char.{code}
use Prim.Native.Nat.{compare, Ordering}
use axionvera_sdk.Prelude.{
  ℕ, zero, suc, ◌+◌, ◌*◌, ◌-◌, String, Bool, true, false, ◌&&◌, ◌||◌, Option, none, some, List, [],
  ◌∷◌, if◌then◌else◌, ◌==◌, leb, is_empty, ℤ, pos, negsuc,
}

-- The codes of the characters of a text.
abbrev pub codes : String → List ℕ
codes String.[] = []
codes (String.◌∷◌ c s) = code c ∷ codes s

pub record SemVer : Type 0 where
  pub major : ℕ
  pub minor : ℕ
  pub patch : ℕ
  pub pre_release : Option (List ℕ)
  pub build_metadata : Option (List ℕ)

abbrev pub is_digit : ℕ → Bool
is_digit c = leb b'0' c && leb c b'9'

-- `[0-9A-Za-z]`
abbrev pub is_alphanumeric : ℕ → Bool
is_alphanumeric c = is_digit c || ((leb b'A' c && leb c b'Z') || (leb b'a' c && leb c b'z'))

-- `[0-9A-Za-z.-]`
abbrev pub is_identifier : ℕ → Bool
is_identifier c = is_alphanumeric c || ((c == b'.') || (c == b'-'))

-- The longest start of a text that passes the test, and the rest of it.
unfoldable pub span : (ℕ → Bool) → List ℕ → List ℕ × List ℕ
span p [] = ([], [])
span p (c ∷ cs) = if p c then (c ∷ (span p cs).0, (span p cs).1) else ([], c ∷ cs)

-- `parseInt` of digits.
unfoldable pub value_from : ℕ → List ℕ → ℕ
value_from n [] = n
value_from n (c ∷ cs) = value_from (n * 10 + (c - b'0')) cs

-- `(\d+)`
unfoldable pub number : List ℕ → Option (ℕ × List ℕ)
unfolding span value_from
number s =
    let (ds, rest) = span is_digit s in if is_empty ds then none else some (value_from 0 ds, rest)

-- A literal character.
unfoldable pub literal : ℕ → List ℕ → Option (List ℕ)
literal c [] = none
literal c (x ∷ xs) = if x == c then some xs else none

infixl 5 ◌then_read◌
abbrev ◌then_read◌ {ℓ κ} : {A : Type ℓ} {B : Type κ} → Option A → (A → Option B) → Option B
none then_read after = none
some a then_read after = after a

-- `[0-9A-Za-z.-]+` after its mark, if the mark is there.
unfoldable pub part_after : List ℕ → Option (List ℕ) → Option (List ℕ) × List ℕ
unfolding span
part_after s none = (none, s)
part_after s (some t) =
    let (name, rest) = span is_identifier t in
    if is_empty name then (none, s) else (some name, rest)

-- `(?:-([0-9A-Za-z.-]+))?`, with the mark that starts the part.
unfoldable pub part : ℕ → List ℕ → Option (List ℕ) × List ℕ
part mark s = part_after s (literal mark s)

-- `version.replace(/^v/, '')`
unfoldable pub without_v : List ℕ → List ℕ
without_v [] = []
without_v (c ∷ cs) = if c == b'v' then cs else c ∷ cs

-- The groups of the regular expression are apart by their marks, so the longest match of each is the only one.
unfoldable pub match_groups : List ℕ → Option SemVer
match_groups cleaned = number cleaned then_read (λ m. literal b'.' m.1 then_read (λ s.
    number s then_read (λ n. literal b'.' n.1 then_read (λ t. number t then_read (λ p.
      let (pre, u) = part b'-' p.1 in
      let (build, rest) = part b'+' u in
      if is_empty rest
      then some (record {
        major = m.0;
        minor = n.0;
        patch = p.0;
        pre_release = pre;
        build_metadata = build;
      })
      else none)))))

unfoldable pub parse_sem_ver : List ℕ → Option SemVer
unfolding match_groups number literal part part_after without_v
parse_sem_ver version = match_groups (without_v version)

abbrev pub add_to_head : ℕ → List (List ℕ) → List (List ℕ)
add_to_head c [] = (c ∷ []) ∷ []
add_to_head c (s ∷ more) = (c ∷ s) ∷ more

-- The negative of a number, and 0 for 0, which `!==` does not tell from -0.
abbrev pub negated : ℕ → ℤ
negated zero = pos 0
negated (suc n) = negsuc n

-- The parts between the points.
unfoldable pub split : List ℕ → List (List ℕ)
split [] = [] ∷ []
split (c ∷ cs) = let rest = split cs in if c == b'.' then [] ∷ rest else add_to_head c rest

-- `parseInt(part, 10)`: the sign and the digits that a part starts with; `none` is NaN.
unfoldable pub parse_int : List ℕ → Option ℤ
unfolding span value_from
parse_int [] = none
parse_int (c ∷ cs) =
    if c == b'-'
    then (let ds = (span is_digit cs).0 in
        if is_empty ds then none else some (negated (value_from 0 ds)))
    else (let ds = (span is_digit (c ∷ cs)).0 in
        if is_empty ds then none else some (pos (value_from 0 ds)))

abbrev pub compare_int : ℤ → ℤ → Ordering
compare_int (pos m) (pos n) = compare m n
compare_int (pos m) (negsuc n) = Ordering.gt
compare_int (negsuc m) (pos n) = Ordering.lt
compare_int (negsuc m) (negsuc n) = compare n m

-- The second comparison decides where the first finds no difference.
abbrev pub or_compare : Ordering → Ordering → Ordering
or_compare Ordering.lt second = Ordering.lt
or_compare Ordering.eq second = second
or_compare Ordering.gt second = Ordering.gt

-- `preRelease` where it is there and not empty.
abbrev pub text_of : Option (List ℕ) → List ℕ
text_of none = []
text_of (some s) = s

module _ (collate : List ℕ → List ℕ → Ordering) where
  abbrev pub compare_numbers : Option ℤ → Option ℤ → Ordering → Ordering
  compare_numbers none y otherwise = otherwise
  compare_numbers (some x) none otherwise = otherwise
  compare_numbers (some x) (some y) otherwise = compare_int x y

  unfoldable pub compare_part : List ℕ → List ℕ → Ordering
  unfolding parse_int
  compare_part a b = compare_numbers (parse_int a) (parse_int b) (collate a b)

  -- The loop over the parts.
  unfoldable pub compare_parts : List (List ℕ) → List (List ℕ) → Ordering
  unfolding compare_part
  compare_parts [] [] = Ordering.eq
  compare_parts [] (b ∷ bs) = Ordering.lt
  compare_parts (a ∷ more) [] = Ordering.gt
  compare_parts (a ∷ more) (b ∷ bs) = or_compare (compare_part a b) (compare_parts more bs)

  unfoldable pub compare_pre_release : List ℕ → List ℕ → Ordering
  unfolding compare_parts split
  compare_pre_release [] [] = Ordering.eq
  compare_pre_release [] (d ∷ b) = Ordering.gt
  compare_pre_release (c ∷ a) [] = Ordering.lt
  compare_pre_release (c ∷ a) (d ∷ b) = compare_parts (split (c ∷ a)) (split (d ∷ b))

  unfoldable pub compare_sem_ver : SemVer → SemVer → Ordering
  unfolding compare_pre_release
  compare_sem_ver a b = or_compare (compare a.major b.major) (
      or_compare (compare a.minor b.minor) (
        or_compare (compare a.patch b.patch)
          (compare_pre_release (text_of a.pre_release) (text_of b.pre_release))))

  abbrev pub is_at_least : Option SemVer → Option SemVer → Bool
  is_at_least none min = false
  is_at_least (some a) none = false
  is_at_least (some a) (some min) = elim (compare_sem_ver a min) [ Ordering.lt ↦ false | _ ↦ true ]

  unfoldable pub satisfies_min_version : String → String → Bool
  unfolding parse_sem_ver compare_sem_ver
  satisfies_min_version version min_version =
      is_at_least (parse_sem_ver (codes version)) (parse_sem_ver (codes min_version))
