-- ===== src/Ws/Origin.antt =====
-- Which origins CheckOrigin of ws/handler.go lets in.
use Prim.Native.Char.{Char, code}
use Prim.Native.String.{String, [] as empty_text, ◌∷◌ as char_then, ◌++◌ as concat}
use text.Mathlib.TextLemmas.{nil-append, cons-append}
use anycable_go.Base.{
  ◌≡◌, refl, sym, ◌∙◌, ap, subst, ◌≢◌, ◌↔◌, ◌⊎◌, inl, inr, Bool, true, false, ◌&&◌, ◌||◌, Option,
  some, List, [], ◌∷◌, arith, ◌==◌, ◌=s=◌, =s=_iff, =s=_refl, All, Bool-cases, Option-cases, =s=_ne,
}
use anycable_go.Base.Outcome.{Outcome, ok}
use anycable_go.Ws.{
  Request, split_commas, check_origin, has_suffix, host_allows, check_hosts, or_next,
}

-- A text that ends by another.
abbrev pub EndsBy : String → String → Type 0
EndsBy s suffix = (before : String) × (s ≡ concat before suffix)

has_suffix_sound : (s suffix : String) → has_suffix s suffix ≡ true → EndsBy s suffix
unfolding has_suffix
has_suffix_sound empty_text suffix h =
    let e : suffix ≡ "" = ground (arith, =s=_iff suffix "") in ("", sym (nil-append suffix ∙ e))
has_suffix_sound (char_then c s) suffix h = elim (Bool-cases (char_then c s =s= suffix)) [
  | inl same ↦
      let e : char_then c s ≡ suffix = (=s=_iff (char_then c s) suffix).0 same in
      ("", e ∙ sym (nil-append suffix))
  | inr differs ↦
      let (before, e) = has_suffix_sound s suffix (ground arith) in
      (char_then c before, ap (char_then c) e ∙ sym (cons-append c before suffix))
]

has_suffix_self : (s : String) → has_suffix s s ≡ true
unfolding has_suffix
has_suffix_self empty_text = =s=_refl ""
has_suffix_self (char_then c s) = ground (arith, =s=_refl (char_then c s))

has_suffix_complete : (before suffix : String) → has_suffix (concat before suffix) suffix ≡ true
unfolding has_suffix
has_suffix_complete empty_text suffix = rw (nil-append suffix) (has_suffix_self suffix)
has_suffix_complete (char_then c before) suffix =
    rw (cons-append c before suffix) (ground (arith, has_suffix_complete before suffix))

-- The host is the allowed one, or the allowed one is a star and a text that the host ends by.
abbrev pub Allows : String → String → Type 0
Allows host empty_text = ⊥
Allows host (char_then c rest) = ((code c ≡ 42) × EndsBy host rest) ⊎ (host ≡ char_then c rest)

abbrev pub AnyAllows : String → List String → Type 0
AnyAllows host [] = ⊥
AnyAllows host (allowed ∷ rest) = Allows host allowed ⊎ AnyAllows host rest

host_allows_lem :
    (host : String) (c : Char) (rest : String)
    → (b : Bool) × (host_allows host (char_then c rest) ≡ ok b)
      × ((b ≡ true) ↔ Allows host (char_then c rest))
unfolding host_allows
host_allows_lem host c rest = (
  (code c == 42 && has_suffix host rest) || (host =s= char_then c rest),
  refl,
  (
    λ yes_all. elim (Bool-cases (host =s= char_then c rest)) [
      | inl same ↦ inr ((=s=_iff host (char_then c rest)).0 same)
      | inr differs ↦ inl (ground arith, has_suffix_sound host rest (ground arith))
    ],
    λ a. elim a [
      | inl (star, ends) ↦
          let (before, e) = ends in
          let suffix : has_suffix host rest ≡ true = rw e (has_suffix_complete before rest) in
          ground arith
      | inr same ↦ ground (arith, =s=_iff host (char_then c rest))
    ],
  ),
)

either_first : {p q : Outcome Bool} (b d : Bool) → p ≡ ok b → q ≡ ok d → or_next p q ≡ ok (b || d)
either_first true d e f = rw e refl
either_first false d e f = rw (e, f) refl

check_hosts_lem :
    (host : String) (hosts : List String)
    → All (λ (allowed : String). allowed ≢ "") hosts
    → (b : Bool) × (check_hosts host hosts ≡ ok b) × ((b ≡ true) ↔ AnyAllows host hosts)
unfolding check_hosts
check_hosts_lem host [] h = (false, refl, ((λ e. absurd (cc)), λ a. absurd a))
check_hosts_lem host (empty_text ∷ rest) h = absurd (h.0 refl)
check_hosts_lem host (char_then c s ∷ rest) h =
    let (b, one, iff) = host_allows_lem host c s in
    let (d, more, later) = check_hosts_lem host rest h.1 in
    (
      b || d,
      either_first b d one more,
      (
        λ e. elim (Bool-cases b) [
          | inl first ↦ inl (iff.0 first)
          | inr off ↦ inr (later.0 (ground arith))
        ],
        λ a. elim a [
          | inl first ↦ let is_b = iff.1 first in ground arith
          | inr next ↦ let is_d = later.1 next in ground arith
        ],
      ),
    )

-- With a setting whose hosts are all non-empty, a request is always answered, and it is let in
-- exactly if the host of its origin is one of the hosts, or ends by what follows the star of one; an
-- origin that does not parse is turned away.
pub check_origin_allows :
    (to_lower : String → String) (parse_host : String → Option String) (origins : String)
    (r : Request)
    → origins ≢ ""
    → All (λ (allowed : String). allowed ≢ "") (split_commas (to_lower origins))
    → (b : Bool) × (check_origin to_lower parse_host origins r ≡ ok b)
      × ((b ≡ true) ↔ (
          (host : String) × (parse_host (to_lower (r.header "Origin")) ≡ some host)
          × AnyAllows host (split_commas (to_lower origins))))
unfolding check_origin
check_origin_allows to_lower parse_host origins r set full =
    let named : (origins =s= "") ≡ false = =s=_ne origins "" set in
    elim (Option-cases (parse_host (to_lower (r.header "Origin")))) [
      | inl bad ↦
          (false, rw (named, bad) refl, ((λ e. absurd (cc)), λ (host, there, a). absurd (cc)))
      | inr (host, there) ↦
          let (b, e, iff) = check_hosts_lem host (split_commas (to_lower origins)) full in
          (
            b,
            rw (named, there) e,
            (
              λ y. (host, there, iff.0 y),
              λ (host', there', a).
                  let same : host' ≡ host = ground arith in
                  iff.1
                    (subst (λ (z : String). AnyAllows z (split_commas (to_lower origins))) same a),
            ),
          )
    ]
