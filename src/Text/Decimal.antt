-- ===== src/Text/Decimal.antt =====
-- Decimal numbers as `{}` prints them and `str::parse` reads them, and `str::split`, `join`.
use mathlib.Core.List.{head-eq_of_cons-eq, tail-eq_of_cons-eq}
use kitty_proxy.Common.{
  sym, ℕ, zero, suc, ◌+◌, ◌-◌, ◌*◌, ◌/◌, ◌%◌, ◌<◌, List, [], ◌∷◌, ◌++◌, Bool, true, false, ◌&&◌,
  ◌≡◌, refl, Option, none, some, arith, leb, ◌==◌, ==_refl, All, ◌∙◌, ap, not, if◌then◌else◌,
}
use kitty_proxy.Text.{Text}

-- The digits of `n` in front of `acc`; the fuel is one more than `n`, which outlasts the division.
digits : ℕ → ℕ → Text → Text
digits zero n acc = acc
digits (suc f) n acc = elim (n / 10) [
  | zero ↦ (48 + n % 10) ∷ acc
  | suc m ↦ digits f (suc m) ((48 + n % 10) ∷ acc)
]

unfoldable pub to_string : ℕ → Text
unfolding digits
to_string n = digits (suc n) n []

-- The number that digits stand for, after those that stand for `n`.
pub value_from : ℕ → Text → ℕ
value_from n [] = n
value_from n (c ∷ s) = value_from (n * 10 + (c - 48)) s

value_from-digits :
    (f n : ℕ) (acc : Text) → n < f → value_from 0 (digits f n acc) ≡ value_from n acc
unfolding value_from digits
value_from-digits zero n acc h = absurd (omega arith)
value_from-digits (suc f) n acc h =
    go (n / 10) refl (λ q low. value_from-digits f q ((48 + n % 10) ∷ acc) low)
  where
    go :
        (q : ℕ)
        → n / 10 ≡ q
        → ((q : ℕ)
            → q < f
            → value_from 0 (digits f q ((48 + n % 10) ∷ acc)) ≡ value_from q ((48 + n % 10) ∷ acc))
        → value_from 0 (digits (suc f) n acc) ≡ value_from n acc
    go zero e rest = rw (e, digits) (ap (λ k. value_from k acc) (omega (arith, e)))
    go (suc q) e rest =
        rw (e, digits)
          (rest (suc q) (omega (arith, e, h)) ∙ ap (λ k. value_from k acc) (omega (arith, e)))

-- The digits of a number stand for it: the fuel is enough.
pub value_from-to_string : (n : ℕ) → value_from 0 (to_string n) ≡ n
unfolding to_string value_from
value_from-to_string n = value_from-digits (suc n) n [] (omega arith)

is_digit : ℕ → Bool
is_digit c = leb 48 c && leb c 57

-- The digits of a `u8` from the left; `none` for another character or past 255.
u8_from : ℕ → Text → Option ℕ
unfolding is_digit
u8_from acc [] = some acc
u8_from acc (c ∷ s) =
    let rest = u8_from (acc * 10 + (c - 48)) s in
    if is_digit c && leb (acc * 10 + (c - 48)) 255 then rest else none

-- `parse::<u8>()`: a leading `+` is allowed, an empty text is not.
unfoldable pub parse_u8 : Text → Option ℕ
unfolding u8_from
parse_u8 [] = none
parse_u8 (c ∷ []) = u8_from 0 (c ∷ [])
parse_u8 (c ∷ d ∷ s) = if c == 43 then u8_from 0 (d ∷ s) else u8_from 0 (c ∷ d ∷ s)

put_first : ℕ → List Text → List Text
put_first c [] = (c ∷ []) ∷ []
put_first c (p ∷ ps) = (c ∷ p) ∷ ps

-- `split(sep)`
unfoldable pub split : ℕ → Text → List Text
unfolding put_first
split sep [] = [] ∷ []
split sep (c ∷ s) = if c == sep then [] ∷ split sep s else put_first c (split sep s)

-- `join(sep)`
unfoldable pub join : ℕ → List Text → Text
join sep [] = []
join sep (p ∷ []) = p
join sep (p ∷ q ∷ ps) = p ++ sep ∷ join sep (q ∷ ps)

-- Every byte has the property; decided by running through them.
for_each_below : (ℕ → Bool) → ℕ → Bool
for_each_below p zero = true
for_each_below p (suc n) = if p n then for_each_below p n else false

for_each_lem : (p : ℕ → Bool) (n x : ℕ) → x < n → for_each_below p n ≡ true → p x ≡ true
unfolding for_each_below
for_each_lem p zero x low every = absurd (omega arith)
for_each_lem p (suc n) x low every = ground (arith, for_each_lem p n x)

parses_to : ℕ → Bool
parses_to n = elim (parse_u8 (to_string n)) [ none ↦ false | some m ↦ m == n ]

u8_table : for_each_below parses_to 256 ≡ true
unfolding for_each_below parses_to parse_u8 to_string
u8_table = refl

-- A byte that is printed is read back.
pub parse_u8-to_string : (n : ℕ) → n < 256 → parse_u8 (to_string n) ≡ some n
unfolding parses_to
parse_u8-to_string n h = ground (arith, for_each_lem parses_to 256 n h u8_table)

-- No byte of the text is `sep`.
pub free_of : ℕ → Text → Bool
free_of sep [] = true
free_of sep (c ∷ s) = not (c == sep) && free_of sep s

split_first :
    (sep : ℕ) (p s : Text) → free_of sep p ≡ true → split sep (p ++ sep ∷ s) ≡ p ∷ split sep s
unfolding split free_of
split_first sep [] s h = rw (==_refl sep)
split_first sep (c ∷ p) s h = ground (arith, split_first sep p s)

split_last : (sep : ℕ) (p : Text) → free_of sep p ≡ true → split sep p ≡ p ∷ []
unfolding split free_of
split_last sep [] h = refl
split_last sep (c ∷ p) h = ground (arith, split_last sep p)

-- Parts that are joined and split again.
pub split-join :
    (sep : ℕ) (p : Text) (ps : List Text)
    → free_of sep p ≡ true
    → All (λ q. free_of sep q ≡ true) ps
    → split sep (join sep (p ∷ ps)) ≡ p ∷ ps
unfolding join
split-join sep p [] h hs = split_last sep p h
split-join sep p (q ∷ ps) h hs =
    split_first sep p (join sep (q ∷ ps)) h ∙ ap (◌∷◌ p) (split-join sep q ps hs.0 hs.1)

dots_table : for_each_below (λ n. free_of b'.' (to_string n)) 256 ≡ true
unfolding for_each_below free_of to_string
dots_table = refl

pub to_string-free : (n : ℕ) → n < 256 → free_of b'.' (to_string n) ≡ true
to_string-free n h = for_each_lem (λ n. free_of b'.' (to_string n)) 256 n h dots_table

digits_free :
    (f n : ℕ) (acc : Text) → free_of b':' acc ≡ true → free_of b':' (digits f n acc) ≡ true
unfolding digits free_of
digits_free zero n acc h = h
digits_free (suc f) n acc h =
    go (n / 10) refl (λ q. digits_free f q ((48 + n % 10) ∷ acc) (digit h))
  where
    digit : free_of b':' acc ≡ true → free_of b':' ((48 + n % 10) ∷ acc) ≡ true
    digit h = ground (arith, h)

    go :
        (q : ℕ)
        → n / 10 ≡ q
        → ((q : ℕ) → free_of b':' (digits f q ((48 + n % 10) ∷ acc)) ≡ true)
        → free_of b':' (digits (suc f) n acc) ≡ true
    go zero e rest = rw (e, digits) (digit h)
    go (suc q) e rest = rw (e, digits) (rest (suc q))

-- A number is written without a colon.
pub to_string_no_colon : (n : ℕ) → free_of b':' (to_string n) ≡ true
unfolding to_string free_of
to_string_no_colon n = digits_free (suc n) n [] refl

not_free : (sep : ℕ) (m e : Text) → free_of sep (m ++ sep ∷ e) ≡ false
unfolding free_of
not_free sep [] e = rw (==_refl sep)
not_free sep (c ∷ m) e = ground (arith, not_free sep m e)

clashing : (sep : ℕ) (m d e : Text) → free_of sep d ≡ true → d ≡ m ++ sep ∷ e → ⊥
clashing sep m d e h same = clash (sym h ∙ ap (free_of sep) same ∙ not_free sep m e)
  where
    clash : true ≡ false → ⊥
    clash e = cc

-- A text is parted in one way by its last separator.
pub last_part :
    (sep : ℕ) (n m d e : Text)
    → free_of sep d ≡ true
    → free_of sep e ≡ true
    → n ++ sep ∷ d ≡ m ++ sep ∷ e
    → (n ≡ m) × (d ≡ e)
unfolding free_of
last_part sep [] [] d e hd he h = (refl, tail-eq_of_cons-eq h)
last_part sep [] (c ∷ m) d e hd he h = absurd (clashing sep m d e hd (tail-eq_of_cons-eq h))
last_part sep (c ∷ n) [] d e hd he h = absurd (clashing sep n e d he (sym (tail-eq_of_cons-eq h)))
last_part sep (c ∷ n) (k ∷ m) d e hd he h =
    let (same, rest) = last_part sep n m d e hd he (tail-eq_of_cons-eq h) in
    (rw (same, head-eq_of_cons-eq h), rest)
