-- ===== src/Fdw/Literals/Intervals.antt =====
-- Interval literals are read back as the interval that they were made from.
use oracle_fdw.Base.{
  ℕ, zero, suc, ◌+◌, ◌*◌, ◌/◌, ◌%◌, ◌^◌, ◌≤◌, ◌<◌, ◌≡◌, refl, ap, ◌∙◌, Bool, true, false, ◌||◌, inl,
  inr, [], ◌∷◌, some, Bytes, arith, Bool-cases, ltb, ltb_of_le,
}
use oracle_fdw.Base.Int.{pos, neg, abs, is_pos, is_neg, tdiv, tmod}
use oracle_fdw.Result.{ok}
use oracle_fdw.Text.{codes}
use oracle_fdw.Fdw.Literals.{
  Interval, Itm, interval2itm, any_of, print_interval, limited, deparse_itm, deparse_interval,
}
use oracle_fdw.Fdw.Literals.IntervalTexts.{
  signed, sign_text, itm_of, abs-signed, read_interval, read_interval-print_interval,
}

-- The fields of days and microseconds with one sign.
tdiv-signed :
    (negative : Bool) (t n : ℕ) → 0 / n ≡ 0 → tdiv (signed negative t) n ≡ signed negative (t / n)
tdiv-signed false t n z = refl
tdiv-signed true zero n z = rw z refl
tdiv-signed true (suc t) n z = refl

tmod-signed :
    (negative : Bool) (t n : ℕ) → 0 % n ≡ 0 → tmod (signed negative t) n ≡ signed negative (t % n)
tmod-signed false t n z = refl
tmod-signed true zero n z = rw z refl
tmod-signed true (suc t) n z = refl

abbrev pub span_of : Bool → ℕ → ℕ → Interval
span_of negative d t = record { month = pos 0; day = signed negative d; time = signed negative t }

abbrev itm_of_span : Bool → ℕ → ℕ → Itm
itm_of_span negative d t =
    let t1 = t % 3600000000 in
    let t2 = t1 % 60000000 in
    itm_of negative d (t / 3600000000) (t1 / 60000000) (t2 / 1000000) (t2 % 1000000)

interval2itm-span_of :
    (negative : Bool) (d t : ℕ) → interval2itm (span_of negative d t) ≡ itm_of_span negative d t
unfolding interval2itm
interval2itm-span_of negative d t = rw (tdiv-signed negative t 3600000000 refl) (
    rw (tmod-signed negative t 3600000000 refl) (
      rw (tdiv-signed negative (t % 3600000000) 60000000 refl) (
        rw (tmod-signed negative (t % 3600000000) 60000000 refl) (
          rw (tdiv-signed negative (t % 3600000000 % 60000000) 1000000 refl)
            (rw (tmod-signed negative (t % 3600000000 % 60000000) 1000000 refl) refl)))))

is_pos-neg : (n : ℕ) → is_pos (neg n) ≡ false
is_pos-neg zero = refl
is_pos-neg (suc n) = refl

zero_of_neg : (n : ℕ) → is_neg (neg n) ≡ false → n ≡ 0
zero_of_neg zero h = refl
zero_of_neg (suc n) h = absurd (cc h)

limited_lem :
    (sign : Bytes) (negative : Bool) (d h m x f : ℕ)
    → h ≤ 23
    → limited sign (itm_of negative d h m x f)
      ≡ ok (some (print_interval sign (itm_of negative d h m x f)))
unfolding limited
limited_lem sign negative d h m x f l =
    let small : ltb 23 (abs (signed negative h)) ≡ false =
      rw (abs-signed negative h) (ltb_of_le 23 h l) in
    rw small refl

or-false : (a b : Bool) → a || b ≡ false → (a ≡ false) × (b ≡ false)
or-false true b h = absurd (cc h)
or-false false b h = (refl, h)

print_interval-sign :
    (sign : Bytes) (d h m x f : ℕ)
    → print_interval sign (itm_of true d h m x f) ≡ print_interval sign (itm_of false d h m x f)
unfolding print_interval
print_interval-sign sign d h m x f = rw (abs-signed true d) (
    rw (abs-signed true h)
      (rw (abs-signed true m) (rw (abs-signed true x) (rw (abs-signed true f) refl))))

any_neg-false : (d h m x f : ℕ) → any_of is_neg (itm_of false d h m x f) ≡ false
any_neg-false d h m x f = refl

any_pos-true : (d h m x f : ℕ) → any_of is_pos (itm_of true d h m x f) ≡ false
any_pos-true d h m x f =
    rw (is_pos-neg d) (rw (is_pos-neg h) (rw (is_pos-neg m) (rw (is_pos-neg x) (is_pos-neg f))))

-- No field of a negative interval is below zero: all are zero.
zero_fields :
    (d h m x f : ℕ)
    → any_of is_neg (itm_of true d h m x f) ≡ false
    → (d ≡ 0) × (h ≡ 0) × (m ≡ 0) × (x ≡ 0) × (f ≡ 0)
zero_fields d h m x f e =
    let (e1, ef) = or-false _ (is_neg (neg f)) e in
    let (e2, ex) = or-false _ (is_neg (neg x)) e1 in
    let (e3, em) = or-false _ (is_neg (neg m)) e2 in
    let (ed, eh) = or-false (is_neg (neg d)) (is_neg (neg h)) e3 in
    (zero_of_neg d ed, zero_of_neg h eh, zero_of_neg m em, zero_of_neg x ex, zero_of_neg f ef)

-- The sign that is printed is the interval's, unless the interval is zero.
deparse_itm-itm_of :
    (negative : Bool) (d h m x f : ℕ)
    → h ≤ 23
    → (sign : Bool) × (deparse_itm (itm_of negative d h m x f)
        ≡ ok (some (print_interval (sign_text sign) (itm_of sign d h m x f))))
      × ((n : ℕ)
          → (d ≡ 0 → h ≡ 0 → m ≡ 0 → x ≡ 0 → f ≡ 0 → n ≡ 0)
          → signed sign n ≡ signed negative n)
unfolding deparse_itm
deparse_itm-itm_of false d h m x f l = (false, limited_lem [] false d h m x f l, λ n z. refl)
deparse_itm-itm_of true d h m x f l = elim (Bool-cases (any_of is_neg (itm_of true d h m x f))) [
  | inl e ↦ (
    true,
    rw e (rw (any_pos-true d h m x f) (limited_lem (b'-' ∷ []) true d h m x f l)),
    λ n z. refl,
  )
  | inr e ↦
      let (ed, eh, em, ex, ef) = zero_fields d h m x f e in
      (
        false,
        rw e (
            limited_lem [] true d h m x f l
            ∙ ap (λ s. ok (some s)) (print_interval-sign [] d h m x f)),
        λ n z. rw (z ed eh em ex ef) refl,
      )
]

-- deparseInterval of days and less than a day of microseconds, both up from zero or both down from
-- it, gives a literal, and the literal has those days and those microseconds with their sign.
pub read_interval-deparse_interval :
    (negative : Bool) (d t : ℕ)
    → d < 2 ^ 31
    → t < 86400000000
    → (s : Bytes) × (deparse_interval (span_of negative d t) ≡ ok (some s))
      × (read_interval s
          ≡ some (signed negative d, signed negative t, codes " DAY(9) TO SECOND(6)"))
unfolding deparse_interval
read_interval-deparse_interval negative d t ld lt =
    let h = t / 3600000000 in
    let m = t % 3600000000 / 60000000 in
    let x = t % 3600000000 % 60000000 / 1000000 in
    let f = t % 3600000000 % 60000000 % 1000000 in
    let (sign, e, same) = deparse_itm-itm_of negative d h m x f (omega (arith, lt)) in
    let all : ((h * 60 + m) * 60 + x) * 1000000 + f ≡ t = omega arith in
    let days : signed sign d ≡ signed negative d = same d (λ ed eh em ex ef. ed) in
    let time : signed sign t ≡ signed negative t =
      same t (λ ed eh em ex ef. omega (arith, eh, em, ex, ef)) in
    (
      print_interval (sign_text sign) (itm_of sign d h m x f),
      ap deparse_itm (interval2itm-span_of negative d t) ∙ e,
      read_interval-print_interval sign d h m x f (omega (arith, ld)) (omega (arith, lt))
            (omega arith) (omega arith) (omega arith)
          ∙ rw all (rw days (rw time refl)),
    )
