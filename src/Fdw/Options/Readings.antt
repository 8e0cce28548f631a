-- ===== src/Fdw/Options/Readings.antt =====
-- What the tests of the validator read is what the documentation of the values says.
use oracle_fdw.Base.{
  ℕ, ◌≤◌, ◌≡◌, ◌↔◌, refl, ap, ◌∙◌, sym, Bool, true, false, ◌&&◌, ◌||◌, not, List, [], ◌∷◌, Bytes,
  length, ◌==◌, Bool-cases, inl, inr, arith, if◌then◌else◌, ltb,
}
use oracle_fdw.Base.Int.{pos, negsuc, ℤ}
use oracle_fdw.Result.{ok, err, invalid_value}
use oracle_fdw.Text.{codes}
use oracle_fdw.Jni.Types.{equal, lowercase}
use oracle_fdw.Jni.Sessions.Counting.{equal_self}
use oracle_fdw.Fdw.Options.Numbers.{Parsed, strtol, strtoul}
use oracle_fdw.Fdw.Options.Values.{
  Strtod, serializable, read_committed, read_only, reject_if, has_quote, is_empty, is_whole,
  between, ignore, get_bool_val, get_isolation_level, check_max_long, check_sample, check_prefetch,
  check_lob_prefetch,
}
use oracle_fdw.Fdw.Options.Marking.{both, equal-eq}
use oracle_fdw.Fdw.Options.Documented.{
  Any, isolation_levels, switches, IsWhole, Meets, isolation, boolean, unquoted, percent,
  long_length, integer,
}

accept_if-true : (b : Bool) (name : Bytes) → reject_if (not b) name ≡ ok tt → b ≡ true
accept_if-true true name h = refl
accept_if-true false name h = absurd (cc h)

accept_if : (b : Bool) (name : Bytes) → b ≡ true → reject_if (not b) name ≡ ok tt
accept_if b name h = rw h refl

-- The text is one of the words.
abbrev among : Bytes → List Bytes → Bool
among v [] = false
among v (w ∷ ws) = equal v w || among v ws

among-Any : (v : Bytes) (ws : List Bytes) → among v ws ≡ true → Any (λ w. v ≡ w) ws
among-Any v [] h = absurd (cc h)
among-Any v (w ∷ ws) h = elim (Bool-cases (equal v w)) [
  | inl e ↦ inl (equal-eq v w e)
  | inr e ↦ inr (among-Any v ws (rw e at h))
]

Any-among : (v : Bytes) (ws : List Bytes) → Any (λ w. v ≡ w) ws → among v ws ≡ true
Any-among v [] h = absurd (cc h)
Any-among v (w ∷ ws) (inl e) = rw (sym e) (rw (equal_self v) refl)
Any-among v (w ∷ ws) (inr h) = elim (Bool-cases (equal v w)) [
  | inl e ↦ rw e refl
  | inr e ↦ rw e (Any-among v ws h)
]

-- The cascade of tests accepts if one of them holds.
switch_tests :
    (a b c d e f : Bool) (name : Bytes)
    → ignore (
        if a || b || c then ok true else if d || e || f then ok false else err (invalid_value name))
      ≡ reject_if (not (a || (b || (c || (d || (e || (f || false))))))) name
switch_tests true b c d e f name = refl
switch_tests false true c d e f name = refl
switch_tests false false true d e f name = refl
switch_tests false false false true e f name = refl
switch_tests false false false false true f name = refl
switch_tests false false false false false true name = refl
switch_tests false false false false false false name = refl

pub get_bool_val-Meets :
    (s : Strtod) (name value : Bytes)
    → (ignore (get_bool_val name value) ≡ ok tt) ↔ Meets s boolean value
unfolding get_bool_val
get_bool_val-Meets s name value =
    let low = lowercase value in
    let same =
      switch_tests (equal low (codes "on")) (equal low (codes "yes")) (equal low (codes "true"))
        (equal low (codes "off")) (equal low (codes "no")) (equal low (codes "false")) name in
    (
      (λ h. among-Any low switches (accept_if-true (among low switches) name (sym same ∙ h))),
      (λ m. same ∙ accept_if (among low switches) name (Any-among low switches m)),
    )

level_tests :
    {A : Type 0} (x y z : A) (a b c : Bool) (name : Bytes)
    → ignore (if a then ok x else if b then ok y else if c then ok z else err (invalid_value name))
      ≡ reject_if (not (a || (b || (c || false)))) name
level_tests x y z true b c name = refl
level_tests x y z false true c name = refl
level_tests x y z false false true name = refl
level_tests x y z false false false name = refl

pub get_isolation_level-Meets :
    (s : Strtod) (value : Bytes)
    → (ignore (get_isolation_level value) ≡ ok tt) ↔ Meets s isolation value
unfolding get_isolation_level
get_isolation_level-Meets s value =
    let same =
      level_tests serializable read_committed read_only (equal value (codes "serializable"))
        (equal value (codes "read_committed")) (equal value (codes "read_only"))
        (codes "isolation_level") in
    (
      (λ h.
          among-Any value isolation_levels (
            accept_if-true (among value isolation_levels) (codes "isolation_level")
              (sym same ∙ h))),
      (λ m.
          same
          ∙ accept_if (among value isolation_levels) (codes "isolation_level")
              (Any-among value isolation_levels m)),
    )

pub has_quote-Meets :
    (s : Strtod) (name value : Bytes)
    → (reject_if (has_quote value) name ≡ ok tt) ↔ Meets s unquoted value
has_quote-Meets s name [] = ((λ h. tt), (λ m. refl))
has_quote-Meets s name (c ∷ value) =
    let (there, back) = has_quote-Meets s name value in
    elim (Bool-cases (c == b'"')) [
      | inl e ↦ ((λ h. absurd (cc (rw e at h))), (λ m. absurd (cc (m.0))))
      | inr e ↦ ((λ h. (e, there (rw e at h))), (λ m. rw e (back m.1)))
    ]

parts_whole :
    (value rest : Bytes) (errno : Bool)
    → not (is_empty value) && is_empty rest && not errno ≡ true
    → (1 ≤ length value) × (rest ≡ []) × (errno ≡ false)
parts_whole [] rest errno h = absurd (cc h)
parts_whole (c ∷ value) [] false h = (omega arith, refl, refl)
parts_whole (c ∷ value) [] true h = absurd (cc h)
parts_whole (c ∷ value) (r ∷ rest) errno h = absurd (cc h)

is_whole-IsWhole :
    {A : Type 0} (value : Bytes) (p : Parsed A) → is_whole value p ≡ true → IsWhole value p
is_whole-IsWhole value p h = parts_whole value p.rest p.errno h

IsWhole-is_whole :
    {A : Type 0} (value : Bytes) (p : Parsed A) → IsWhole value p → is_whole value p ≡ true
IsWhole-is_whole [] p (l, r, e) = absurd (omega (arith, l))
IsWhole-is_whole (c ∷ value) p (l, r, e) = rw r (rw e refl)

-- A test of a number beside the test that it is the whole text.
number_test :
    {A : Type 0} (value name : Bytes) (p : Parsed A) (test : Bool)
    → (reject_if (not (is_whole value p && test)) name ≡ ok tt) ↔ (IsWhole value p × (test ≡ true))
number_test value name p test = (
  (λ h.
      let (w, t) = both (is_whole value p) test (accept_if-true _ name h) in
      (is_whole-IsWhole value p w, t)),
  (λ (w, t). accept_if _ name (rw (IsWhole-is_whole value p w) t)),
)

between-bounds :
    (low high : ℕ) (z : ℤ)
    → (between low high z ≡ true) ↔ ((n : ℕ) × (z ≡ pos n) × (low ≤ n) × (n ≤ high))
between-bounds low high (pos n) = (
  (λ h. (n, refl, ground (arith, h), ground (arith, h))),
  (λ (m, e, a, b). let same : n ≡ m = cc e in ground (arith, same, a, b)),
)
between-bounds low high (negsuc n) = ((λ h. absurd (cc h)), (λ (m, e, a, b). absurd (cc e)))

integer_test :
    (s : Strtod) (low high : ℕ) (value name : Bytes)
    → (reject_if
          (not (is_whole value (strtol value) && between low high ((strtol value).value)))
          name
        ≡ ok tt)
      ↔ Meets s (integer low high) value
integer_test s low high value name =
    let p = strtol value in
    let (there, back) = number_test value name p (between low high p.value) in
    let (out, into) = between-bounds low high p.value in
    ((λ h. let (w, t) = there h in (w, out t)), (λ (w, t). back (w, into t)))

pub check_prefetch-Meets :
    (s : Strtod) (value : Bytes) → (check_prefetch value ≡ ok tt) ↔ Meets s (integer 1 10240) value
unfolding check_prefetch
check_prefetch-Meets s value = integer_test s 1 10240 value (codes "prefetch")

pub check_lob_prefetch-Meets :
    (s : Strtod) (value : Bytes)
    → (check_lob_prefetch value ≡ ok tt) ↔ Meets s (integer 0 536870912) value
unfolding check_lob_prefetch
check_lob_prefetch-Meets s value = integer_test s 0 536870912 value (codes "lob_prefetch")

-- not a || b is not (a && not b).
not_and : (a b : Bool) → not a || b ≡ not (a && not b)
not_and true true = refl
not_and true false = refl
not_and false b = refl

not-true : (b : Bool) → not b ≡ true → b ≡ false
not-true true h = absurd (cc h)
not-true false h = refl

pub check_sample-Meets :
    (s : Strtod) (value : Bytes) → (check_sample s value ≡ ok tt) ↔ Meets s percent value
unfolding check_sample
check_sample-Meets s value =
    let p = s.strtod value in
    let name = codes "sample_percent" in
    let (there, back) = number_test value name p (not (s.out_of_range p.value)) in
    let same = ap (λ b. reject_if b name) (not_and (is_whole value p) (s.out_of_range p.value)) in
    (
      (λ h. let (w, t) = there (sym same ∙ h) in (w, not-true _ t)),
      (λ (w, t). same ∙ back (w, ap not t)),
    )

long_test :
    (a b c : Bool) (name : Bytes)
    → reject_if (not a || b || c) name ≡ reject_if (not (a && not (b || c))) name
long_test true true c name = refl
long_test true false true name = refl
long_test true false false name = refl
long_test false b c name = refl

long_bounds : (n : ℕ) → not (ltb n 1 || ltb 1073741823 n) ≡ true → (1 ≤ n) × (n ≤ 1073741823)
long_bounds n h = (ground (arith, h), ground (arith, h))

bounds_long : (n : ℕ) → 1 ≤ n → n ≤ 1073741823 → not (ltb n 1 || ltb 1073741823 n) ≡ true
bounds_long n a b = ground (arith, a, b)

pub check_max_long-Meets :
    (s : Strtod) (value : Bytes) → (check_max_long value ≡ ok tt) ↔ Meets s long_length value
unfolding check_max_long
check_max_long-Meets s value =
    let p = strtoul value in
    let name = codes "max_long" in
    let low = ltb p.value 1 in
    let high = ltb 1073741823 p.value in
    let (there, back) = number_test value name p (not (low || high)) in
    let same = long_test (is_whole value p) low high name in
    (
      (λ h. let (w, t) = there (sym same ∙ h) in let (a, b) = long_bounds p.value t in (w, a, b)),
      (λ (w, a, b). same ∙ back (w, bounds_long p.value a b)),
    )
