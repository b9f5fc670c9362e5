-- ===== src/Text/Decimal.antt =====
-- strconv.Itoa and strconv.Atoi.
use registration_service.Prelude.{
  ℕ, zero, suc, ◌+◌, ◌-◌, ◌*◌, ◌/◌, ◌%◌, ◌<◌, ◌≡◌, refl, ap, ◌∙◌, Bool, true, false, ◌&&◌, inl, inr,
  Option, none, some, Char, code, String, arith, leb, ltb, eqb, ltb→lt, if◌then◌else◌, Bool-cases,
}
use registration_service.Prelude.Int.{ℤ, pos, negsuc, max_int, InRange}

-- Is the text empty?
abbrev pub is_empty : String → Bool
is_empty String.[] = true
is_empty (String.◌∷◌ c s) = false

-- The character at an index, with a default out of range.
abbrev pub char_at : String → ℕ → Char → Char
char_at String.[] i c = c
char_at (String.◌∷◌ d s) zero c = d
char_at (String.◌∷◌ d s) (suc i) c = char_at s i c

abbrev pub is_digit : ℕ → Bool
is_digit c = leb b'0' c && leb c b'9'

unfoldable pub digit : ℕ → Char
digit d = char_at "0123456789" d "0"

-- The decimal digits of `n` in front of `acc`, on fuel.
show_from : ℕ → ℕ → String → String
show_from zero n acc = acc
show_from (suc f) n acc =
    let longer = show_from f (n / 10) (String.◌∷◌ (digit (n % 10)) acc) in
    if ltb n 10 then String.◌∷◌ (digit n) acc else longer

unfoldable pub show : ℕ → String
unfolding show_from digit
show n = show_from (n + 1) n ""

-- The number of a run of digits after the value `n`; another character refuses it.
pub read_from : ℕ → String → Option ℕ
read_from n String.[] = some n
read_from n (String.◌∷◌ c s) =
    let rest = read_from (n * 10 + (code c - b'0')) s in if is_digit (code c) then rest else none

-- An unsigned number needs a digit.
unfoldable pub read : String → Option ℕ
unfolding read_from
read String.[] = none
read (String.◌∷◌ c s) = read_from 0 (String.◌∷◌ c s)

-- The signed value, out of range an error.
abbrev signed : Bool → Option ℕ → Option ℤ
signed minus none = none
signed false (some n) = if leb n max_int then some (pos n) else none
signed true (some zero) = some (pos 0)
signed true (some (suc n)) = if leb n max_int then some (negsuc n) else none

-- strconv.Atoi: an optional sign and decimal digits, within 64 bits.
unfoldable pub atoi : String → Option ℤ
unfolding read
atoi String.[] = none
atoi (String.◌∷◌ c s) =
    if eqb (code c) b'-'
    then signed true (read s)
    else if eqb (code c) b'+'
    then signed false (read s)
    else signed false (read (String.◌∷◌ c s))

-- strconv.Itoa
unfoldable pub itoa : ℤ → String
unfolding show
itoa (pos n) = show n
itoa (negsuc n) = String.◌∷◌ "-" (show (n + 1))

itoa_tests : (itoa (pos 120) ≡ "120") × (itoa (negsuc 0) ≡ "-1") × (atoi "-007" ≡ some (negsuc 6))
unfolding itoa atoi
itoa_tests = (refl, refl, refl)

pub code-digit : (d : ℕ) → d < 10 → code (digit d) ≡ b'0' + d
unfolding digit
code-digit zero h = refl
code-digit (suc zero) h = refl
code-digit (suc (suc zero)) h = refl
code-digit (suc (suc (suc zero))) h = refl
code-digit (suc (suc (suc (suc zero)))) h = refl
code-digit (suc (suc (suc (suc (suc zero))))) h = refl
code-digit (suc (suc (suc (suc (suc (suc zero)))))) h = refl
code-digit (suc (suc (suc (suc (suc (suc (suc zero))))))) h = refl
code-digit (suc (suc (suc (suc (suc (suc (suc (suc zero)))))))) h = refl
code-digit (suc (suc (suc (suc (suc (suc (suc (suc (suc zero))))))))) h = refl
code-digit (suc (suc (suc (suc (suc (suc (suc (suc (suc (suc d)))))))))) h = absurd (omega arith)

sub_digit : (d : ℕ) → b'0' + d - b'0' ≡ d
sub_digit d = omega arith

read_from-digit :
    (n d : ℕ) (s : String)
    → d < 10
    → read_from n (String.◌∷◌ (digit d) s) ≡ read_from (n * 10 + d) s
unfolding read_from
read_from-digit n d s h =
    rw (code-digit d h) (ground (arith, ap (λ (k : ℕ). read_from (n * 10 + k) s) (sub_digit d)))

read-show_from :
    (f n : ℕ) (acc : String) → n < f → read_from 0 (show_from f n acc) ≡ read_from n acc
unfolding show_from
read-show_from zero n acc h = absurd (omega arith)
read-show_from (suc f) n acc h = elim (Bool-cases (ltb n 10)) [
  | inl small ↦
      rw small (
        read_from-digit 0 n acc (ltb→lt n 10 small) ∙ ap (λ (k : ℕ). read_from k acc) (omega arith))
  | inr big ↦ rw big (
      read-show_from f (n / 10) (String.◌∷◌ (digit (n % 10)) acc) (ground arith)
      ∙ read_from-digit (n / 10) (n % 10) acc (omega arith)
      ∙ ap (λ (k : ℕ). read_from k acc) (omega arith))
]

read_from-show : (n : ℕ) → read_from 0 (show n) ≡ some n
unfolding show read_from
read_from-show n = read-show_from (n + 1) n "" (omega arith)

-- A printed number begins with a digit.
show_from-cons :
    (f n : ℕ) (acc : String)
    → n < f
    → (d : ℕ) × (s : String) × (d < 10) × (show_from f n acc ≡ String.◌∷◌ (digit d) s)
unfolding show_from
show_from-cons zero n acc h = absurd (omega arith)
show_from-cons (suc f) n acc h = elim (Bool-cases (ltb n 10)) [
  | inl small ↦ (n, acc, ltb→lt n 10 small, rw small)
  | inr big ↦
      let (d, s, p, e) =
        show_from-cons f (n / 10) (String.◌∷◌ (digit (n % 10)) acc) (ground arith) in
      (d, s, p, rw big e)
]

read_of_cons : (s : String) (c : Char) (t : String) → s ≡ String.◌∷◌ c t → read s ≡ read_from 0 s
unfolding read
read_of_cons s c t e = rw (e, read)

pub read-show : (n : ℕ) → read (show n) ≡ some n
unfolding show
read-show n =
    let (d, s, p, e) = show_from-cons (n + 1) n "" (omega arith) in
    read_of_cons (show n) (digit d) s e ∙ read_from-show n

atoi_of_digit :
    (s : String) (d : ℕ) (t : String)
    → d < 10
    → s ≡ String.◌∷◌ (digit d) t
    → atoi s ≡ signed false (read s)
unfolding atoi
atoi_of_digit s d t h e = rw (e, atoi) (ground (arith, code-digit d h))

atoi_of_minus : (s : String) → atoi (String.◌∷◌ "-" s) ≡ signed true (read s)
unfolding atoi
atoi_of_minus s = refl

-- Atoi(Itoa(z)) is z, for each value of an `int`.
pub atoi-itoa : (z : ℤ) → InRange z → atoi (itoa z) ≡ some z
unfolding itoa
atoi-itoa (pos n) h =
    let (d, s, p, e) = show_from-cons (n + 1) n "" (omega arith) in
    unfold show in (atoi_of_digit (show n) d s p e ∙ (rw (read-show n) (ground arith)))
atoi-itoa (negsuc n) h =
    let e : read (show (n + 1)) ≡ some (suc n) = read-show (n + 1) ∙ ap some (omega arith) in
    atoi_of_minus (show (n + 1)) ∙ rw e (ground arith)

is_empty_of_cons : (s : String) (c : Char) (t : String) → s ≡ String.◌∷◌ c t → is_empty s ≡ false
is_empty_of_cons s c t e = rw e

pub is_empty-itoa : (z : ℤ) → is_empty (itoa z) ≡ false
unfolding itoa
is_empty-itoa (pos n) =
    let (d, s, p, e) = show_from-cons (n + 1) n "" (omega arith) in
    unfold show in is_empty_of_cons (show n) (digit d) s e
is_empty-itoa (negsuc n) = refl
