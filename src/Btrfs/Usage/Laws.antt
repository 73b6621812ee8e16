-- ===== src/Btrfs/Usage/Laws.antt =====
-- The numbers that end the output of `btrfs qgroup show`, read back.
use mathlib.Core.List.{
  reverse, reverse-cons, reverse-append, reverse-reverse, append_assoc, append-nil,
}
use groot_btrfs.Base.{
  ℕ, zero, suc, ◌+◌, ◌/◌, ◌%◌, ◌^◌, ◌<◌, ◌≡◌, refl, sym, ap, ◌∙◌, Bool, true, false, ◌&&◌, [], ◌∷◌,
  ◌++◌, arith, all, some, subst, ltb, inl, inr, Bool-cases,
}
use groot_btrfs.Base.Int.{pos}
use groot_btrfs.Base.Str.{Str}
use groot_btrfs.Base.Str.Split.{is_space, trim_left, trim_right, trim_space}
use groot_btrfs.Base.Decimal.{digits_onto, decimal}
use groot_btrfs.Base.Decimal.Laws.{value-decimal}
use groot_btrfs.Base.Effect.{ok}
use groot_btrfs.Btrfs.Usage.{
  is_digit, is_white, span_onto, last_number, find_numbers, after_white, both_of, total_of,
  scan_int64, parse_usage, read_numbers,
}

-- A text of digits, not empty.
abbrev IsNumber : Str → Type 0
IsNumber [] = ⊥
IsNumber (c ∷ s) = all is_digit (c ∷ s) ≡ true

digits_onto-all :
    (fuel n : ℕ) (tail : Str)
    → all is_digit tail ≡ true
    → all is_digit (digits_onto fuel n tail) ≡ true
unfolding digits_onto
digits_onto-all zero n tail h = h
digits_onto-all (suc fuel) n tail h =
    ground (arith, digits_onto-all fuel (n / 10) ((b'0' + n % 10) ∷ tail))

digits_onto-full :
    (fuel n c : ℕ) (tail : Str) → (d : ℕ) × (s : Str) × (digits_onto fuel n (c ∷ tail) ≡ d ∷ s)
unfolding digits_onto
digits_onto-full zero n c tail = (c, tail, refl)
digits_onto-full (suc fuel) n c tail = elim (Bool-cases (ltb n 10)) [
  | inl small ↦ (b'0' + n, c ∷ tail, rw small refl)
  | inr large ↦
      let (d, s, e) = digits_onto-full fuel (n / 10) (b'0' + n % 10) (c ∷ tail) in
      (d, s, rw large e)
]

decimal-full : (n : ℕ) → (d : ℕ) × (s : Str) × (decimal n ≡ d ∷ s)
unfolding decimal
decimal-full n = elim (Bool-cases (ltb n 10)) [
  | inl small ↦ (b'0' + n, [], rw small refl)
  | inr large ↦ let (d, s, e) = digits_onto-full n (n / 10) (b'0' + n % 10) [] in (d, s, rw large e)
]

decimal-all : (n : ℕ) → all is_digit (decimal n) ≡ true
unfolding decimal
decimal-all n = digits_onto-all (suc n) n [] refl

all-append : (p : ℕ → Bool) (s t : Str) → all p (s ++ t) ≡ (all p s && all p t)
all-append p [] t = refl
all-append p (c ∷ s) t = ground (arith, all-append p s t)

and_left : (a b : Bool) → (a && b) ≡ true → a ≡ true
and_left a b h = ground arith

all-reverse : (p : ℕ → Bool) (s : Str) → all p (reverse s) ≡ all p s
all-reverse p [] = refl
all-reverse p (c ∷ s) =
    ap (all p) (reverse-cons c s)
    ∙ all-append p (reverse s) (c ∷ [])
    ∙ ground (arith, all-reverse p s)

span_lem :
    (p : ℕ → Bool) (read s r : Str) (c : ℕ)
    → all p s ≡ true
    → p c ≡ false
    → span_onto p read (s ++ (c ∷ r)) ≡ (reverse s ++ read, c ∷ r)
unfolding span_onto
span_lem p read [] r c h out = rw out refl
span_lem p read (a ∷ s) r c h out =
    let first : p a ≡ true = ground arith in
    let rest = span_lem p (a ∷ read) s r c (ground arith) out in
    rw first (
      rest
      ∙ ap (λ t. (t, c ∷ r))
          (sym (append_assoc (reverse s) (a ∷ []) read)
            ∙ ap (λ t. t ++ read) (sym (reverse-cons a s))))

last_number_lem :
    (s r : Str) (c : ℕ)
    → IsNumber s
    → is_white c ≡ true
    → last_number (reverse s ++ (c ∷ r)) ≡ some (s, c ∷ r)
unfolding last_number after_white
last_number_lem [] r c h white = absurd h
last_number_lem (a ∷ s) r c h white =
    let spanned =
      span_lem is_digit [] (reverse (a ∷ s)) r c (all-reverse is_digit (a ∷ s) ∙ h)
        (ground arith) in
    let back : reverse (reverse (a ∷ s)) ++ [] ≡ a ∷ s =
      append-nil (reverse (reverse (a ∷ s))) ∙ reverse-reverse (a ∷ s) in
    ap after_white (spanned ∙ ap (λ t. (t, c ∷ r)) back) ∙ rw white refl

reverse-middle : (s t : Str) (c : ℕ) → reverse (s ++ (c ∷ t)) ≡ reverse t ++ (c ∷ reverse s)
reverse-middle s t c =
    reverse-append s (c ∷ t)
    ∙ ap (λ x. x ++ reverse s) (reverse-cons c t)
    ∙ append_assoc (reverse t) (c ∷ []) (reverse s)

snoc_full : (s : Str) (a : ℕ) → (d : ℕ) × (r : Str) × (s ++ (a ∷ []) ≡ d ∷ r)
snoc_full [] a = (a, [], refl)
snoc_full (c ∷ s) a = (c, s ++ (a ∷ []), refl)

-- The last character of a number is a digit, so that no white space begins it in reverse.
reverse_number :
    (s : Str) → IsNumber s → (d : ℕ) × (r : Str) × (reverse s ≡ d ∷ r) × (is_white d ≡ false)
reverse_number [] h = absurd h
reverse_number (a ∷ s) h =
    let (d, r, e) = snoc_full (reverse s) a in
    let e' : reverse (a ∷ s) ≡ d ∷ r = reverse-cons a s ∙ e in
    let digits : all is_digit (d ∷ r) ≡ true =
      sym (ap (all is_digit) e') ∙ all-reverse is_digit (a ∷ s) ∙ h in
    (d, r, e', ground arith)

skip_space :
    (blank s r : Str)
    → all is_white blank ≡ true
    → IsNumber s
    → (span_onto is_white [] (blank ++ (reverse s ++ r))).1 ≡ reverse s ++ r
skip_space blank s r white h =
    let (d, t, e, black) = reverse_number s h in
    rw e (ap (λ p. p.1) (span_lem is_white [] blank (t ++ r) d white black))

-- Two numbers with white space between them, in reverse.
both_of_lem :
    (blank total exclusive back : Str)
    → all is_white blank ≡ true
    → IsNumber total
    → IsNumber exclusive
    → both_of (
        last_number
          (reverse exclusive ++ ((blank ++ (0x20 ∷ [])) ++ (reverse total ++ (0x20 ∷ back)))))
      ≡ some (total, exclusive)
unfolding both_of total_of
both_of_lem blank total exclusive back white h k =
    let rest = reverse total ++ (0x20 ∷ back) in
    let (d, r, e) = snoc_full blank 0x20 in
    let all_white : all is_white (blank ++ (0x20 ∷ [])) ≡ true =
      all-append is_white blank (0x20 ∷ []) ∙ ground (arith, white) in
    let first : is_white d ≡ true =
      and_left (is_white d) (all is_white r) (sym (ap (all is_white) e) ∙ all_white) in
    let last = last_number_lem exclusive (r ++ rest) d k first in
    ap (λ t. both_of (last_number (reverse exclusive ++ (t ++ rest)))) e
    ∙ ap both_of last
    ∙ ap (λ t. total_of exclusive (last_number (span_onto is_white [] (t ++ rest)).1)) (sym e)
    ∙ ap (λ t. total_of exclusive (last_number t))
        (skip_space (blank ++ (0x20 ∷ [])) total (0x20 ∷ back) all_white h)
    ∙ ap (total_of exclusive) (last_number_lem total back 0x20 h refl)

find_numbers_lem :
    (front total gap exclusive : Str)
    → all is_white gap ≡ true
    → IsNumber total
    → IsNumber exclusive
    → find_numbers (front ++ (0x20 ∷ (total ++ (0x20 ∷ (gap ++ exclusive)))))
      ≡ some (total, exclusive)
unfolding find_numbers
find_numbers_lem front total gap exclusive white h k =
    let back = reverse front in
    let rest = reverse total ++ (0x20 ∷ back) in
    let turned : reverse (front ++ (0x20 ∷ (total ++ (0x20 ∷ (gap ++ exclusive)))))
        ≡ reverse exclusive ++ ((reverse gap ++ (0x20 ∷ [])) ++ rest) =
      reverse-middle front (total ++ (0x20 ∷ (gap ++ exclusive))) 0x20
      ∙ ap (λ x. x ++ (0x20 ∷ back)) (reverse-middle total (gap ++ exclusive) 0x20)
      ∙ append_assoc (reverse (gap ++ exclusive)) (0x20 ∷ reverse total) (0x20 ∷ back)
      ∙ ap (λ x. x ++ (0x20 ∷ rest)) (reverse-append gap exclusive)
      ∙ append_assoc (reverse exclusive) (reverse gap) (0x20 ∷ rest)
      ∙ ap (λ x. reverse exclusive ++ x) (sym (append_assoc (reverse gap) (0x20 ∷ []) rest)) in
    ap (λ t. both_of (last_number t)) turned
    ∙ both_of_lem (reverse gap) total exclusive back (all-reverse is_white gap ∙ white) h k

trim_right-all : (p : ℕ → Bool) (s : Str) → all p s ≡ true → trim_right p s ≡ []
unfolding trim_right
trim_right-all p [] h = refl
trim_right-all p (c ∷ s) h = ground (arith, trim_right-all p s)

-- Trimming stops at a number.
trim_right_number :
    (s ending : Str)
    → IsNumber s
    → all is_space ending ≡ true
    → trim_right is_space (s ++ ending) ≡ s
unfolding trim_right
trim_right_number [] ending h white = absurd h
trim_right_number (a ∷ []) ending h white = ground (arith, trim_right-all is_space ending white)
trim_right_number (a ∷ b ∷ s) ending h white = ground (arith, trim_right_number (b ∷ s) ending)

trim_right-append :
    (p : ℕ → Bool) (s t r : Str) (c : ℕ)
    → trim_right p t ≡ c ∷ r
    → trim_right p (s ++ t) ≡ s ++ (c ∷ r)
unfolding trim_right
trim_right-append p [] t r c e = e
trim_right-append p (a ∷ []) t r c e = rw e refl
trim_right-append p (a ∷ b ∷ s) t r c e = rw (trim_right-append p (b ∷ s) t r c e) refl

number_cons : (s : Str) → IsNumber s → (c : ℕ) × (r : Str) × (s ≡ c ∷ r)
number_cons [] h = absurd h
number_cons (c ∷ s) h = (c, s, refl)

decimal-IsNumber : (n : ℕ) → IsNumber (decimal n)
decimal-IsNumber n =
    let (d, s, e) = decimal-full n in
    subst IsNumber (sym e) (sym (ap (all is_digit) e) ∙ decimal-all n)

-- The output of `btrfs qgroup show`: lines in columns that are padded with white space, the last of
-- which ends in the two numbers.
abbrev pub usage_text : ℕ → Str → ℕ → Str → ℕ → Str → Str
usage_text c front total gap exclusive ending =
    (c ∷ (front ++ (0x20 ∷ (decimal total ++ (0x20 ∷ (gap ++ decimal exclusive)))))) ++ ending

trim_usage :
    (c : ℕ) (front number ending : Str)
    → is_space c ≡ false
    → all is_space ending ≡ true
    → IsNumber number
    → trim_space ((c ∷ (front ++ number)) ++ ending) ≡ c ∷ (front ++ number)
unfolding trim_space trim_left
trim_usage c front number ending out white h =
    let (d, r, e) = number_cons number h in
    rw out (
      ap (λ t. trim_right is_space (c ∷ t)) (append_assoc front number ending)
      ∙ trim_right-append is_space (c ∷ front) (number ++ ending) r d
          (trim_right_number number ending h white ∙ e)
      ∙ ap (λ t. c ∷ (front ++ t)) (sym e))

scan_int64-decimal : (n : ℕ) → n < 2 ^ 63 → scan_int64 (decimal n) ≡ pos n
unfolding scan_int64
scan_int64-decimal n h = ground (arith, value-decimal n)

-- Two numbers below 2^63 that end the output of `btrfs qgroup show`, with white space before, between
-- and after them, where the output begins with no white space, are read as they were written.
pub parse_usage-text :
    (c : ℕ) (front : Str) (total : ℕ) (gap : Str) (exclusive : ℕ) (ending : Str)
    → is_space c ≡ false
    → all is_white gap ≡ true
    → all is_space ending ≡ true
    → total < 2 ^ 63
    → exclusive < 2 ^ 63
    → parse_usage (usage_text c front total gap exclusive ending)
      ≡ ok (record {
        disk_usage = record { total_bytes_used = pos total; exclusive_bytes_used = pos exclusive };
      })
unfolding parse_usage read_numbers
parse_usage-text c front total gap exclusive ending out white blank small less =
    let t = decimal total in
    let e = decimal exclusive in
    let before = front ++ (0x20 ∷ (t ++ (0x20 ∷ gap))) in
    let apart : front ++ (0x20 ∷ (t ++ (0x20 ∷ (gap ++ e)))) ≡ before ++ e =
      ap (λ x. front ++ (0x20 ∷ x)) (sym (append_assoc t (0x20 ∷ gap) e))
      ∙ sym (append_assoc front (0x20 ∷ (t ++ (0x20 ∷ gap))) e) in
    let trimmed : trim_space (usage_text c front total gap exclusive ending)
        ≡ (c ∷ front) ++ (0x20 ∷ (t ++ (0x20 ∷ (gap ++ e)))) =
      ap (λ x. trim_space ((c ∷ x) ++ ending)) apart
      ∙ trim_usage c before e ending out blank (decimal-IsNumber exclusive)
      ∙ ap (λ x. c ∷ x) (sym apart) in
    ap read_numbers (
      ap find_numbers trimmed
      ∙ find_numbers_lem (c ∷ front) t gap e white (decimal-IsNumber total)
          (decimal-IsNumber exclusive))
    ∙ cc (scan_int64-decimal total small, scan_int64-decimal exclusive less)
