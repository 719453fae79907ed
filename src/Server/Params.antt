-- ===== src/Server/Params.antt =====
-- backend/src/server/*/v1: `require_int_field` of a query, by what it accepts.
use hse_project_2026_chronos.Base.{
  ℕ, ◌≡◌, ◌≤◌, ◌<◌, ◌↔◌, refl, sym, ap, ◌∙◌, Option, none, some, List, codes, length, arith,
}
use Prim.Native.String.{String}
use hse_project_2026_chronos.Base.Int.{pos, negsuc, pos_part}
use hse_project_2026_chronos.Server.Rows.{Text}
use hse_project_2026_chronos.Server.Http.{
  Request, Libraries, Number, parsed, not_a_number, out_of_range, find_param,
}
use hse_project_2026_chronos.Server.Action.{Result, ok, failed, bad_type, missing_field, id_limit}
use hse_project_2026_chronos.Server.Handlers.{positive_number, require_int_param}

-- A text that `std::stoll` reads to its end as this number.
abbrev pub ReadsAs : Libraries → Text → ℕ → Type 0
ReadsAs lib value n = lib.stoll value ≡ parsed (pos n) (length value)

read_number :
    (m n chars size : ℕ) → m ≡ n → chars ≡ size → parsed (pos m) chars ≡ parsed (pos n) size
read_number m n chars size h k = ap (λ i. parsed (pos i) chars) h ∙ ap (parsed (pos n)) k

abbrev number_of : Number → ℕ
number_of (parsed n chars) = pos_part n
number_of _ = 0

abbrev chars_of : Number → ℕ
chars_of (parsed n chars) = chars
chars_of _ = 0

positive_number_iff :
    (lib : Libraries) (key value : Text) (number : Number) (n : ℕ)
    → (positive_number lib key value number ≡ ok n)
      ↔ ((number ≡ parsed (pos n) (length value)) × (1 ≤ n) × (n < id_limit))
unfolding positive_number
positive_number_iff lib key value (parsed (pos m) chars) n = (
  (λ e.
      let (a, b, c, d) : (m ≡ n) × (chars ≡ length value) × (1 ≤ m) × (m < id_limit) =
        ground (arith, e) in
      (read_number m n chars (length value) a b, omega (arith, a, c), omega (arith, a, d))),
  λ h.
      let a : m ≡ n = ap number_of h.0 in
      let b : chars ≡ length value = ap chars_of h.0 in ground (arith, a, b, h.1, h.2),
)
positive_number_iff lib key value (parsed (negsuc m) chars) n = (
  (λ e. absurd (ground (arith, e))),
  λ h. let a : pos_part (negsuc m) ≡ n = ap number_of h.0 in absurd (omega (arith, a, h.1)),
)
positive_number_iff lib key value not_a_number n = ((λ e. absurd (cc)), λ h. absurd (cc))
positive_number_iff lib key value out_of_range n = ((λ e. absurd (cc)), λ h. absurd (cc))

-- A parameter of the query that has a value which reads as n in full.
abbrev pub HasParam : Libraries → Option (List (Text × Text)) → Text → ℕ → Type 0
HasParam lib none key n = ⊥
HasParam lib (some params) key n =
    (value : Text) × (find_param key params ≡ some value) × ReadsAs lib value n

param_iff :
    (lib : Libraries) (key : Text) (n : ℕ) (found : Option Text) (outcome : Result ℕ)
    → ((found ≡ none) → ¬ (outcome ≡ ok n))
    → ((value : Text)
        → found ≡ some value
        → outcome ≡ positive_number lib key value (lib.stoll value))
    → (outcome ≡ ok n)
      ↔ (((value : Text) × (found ≡ some value) × ReadsAs lib value n) × (1 ≤ n) × (n < id_limit))
param_iff lib key n none outcome missing read =
    ((λ e. absurd (missing refl e)), λ h. absurd (cc (h.0.1)))
param_iff lib key n (some value) outcome missing read = (
  (λ e.
      let h =
        (positive_number_iff lib key value (lib.stoll value) n).0 (sym (read value refl) ∙ e) in
      ((value, refl, h.0), h.1, h.2)),
  λ h.
      read h.0.0 h.0.1
      ∙ (positive_number_iff lib key h.0.0 (lib.stoll h.0.0) n).1 (h.0.2, h.1, h.2),
)

params_iff :
    (lib : Libraries) (req : Request) (key : String) (n : ℕ) (params : Option (List (Text × Text)))
    → req.params ≡ params
    → (require_int_param lib req key ≡ ok n)
      ↔ (HasParam lib params (codes key) n × (1 ≤ n) × (n < id_limit))
unfolding require_int_param
params_iff lib req key n none h = (
  (λ e. let e' : failed (bad_type (codes key)) ≡ ok n = rw h at e in absurd (cc)),
  λ k. absurd k.0,
)
params_iff lib req key n (some params) h =
    param_iff lib (codes key) n (find_param (codes key) params) (require_int_param lib req key)
      (λ g e.
        let e' : failed (missing_field (codes key)) ≡ ok n = (simp (require_int_param, h, g)) ∙ e in
        absurd (cc))
      (λ value g. simp (require_int_param, h, g))

-- `require_int_field` gives n exactly when the query has the parameter, std::stoll reads its whole
-- value as n, and n is positive and an int.
pub require_int_param_iff :
    (lib : Libraries) (req : Request) (key : String) (n : ℕ)
    → (require_int_param lib req key ≡ ok n)
      ↔ (HasParam lib req.params (codes key) n × (1 ≤ n) × (n < id_limit))
require_int_param_iff lib req key n = params_iff lib req key n req.params refl
