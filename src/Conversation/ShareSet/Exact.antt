-- ===== src/Conversation/ShareSet/Exact.antt =====
-- A share set is accepted exactly when it covers the required members.
use mathlib.Core.Path.{subst}
use najva_messenger.Base.{
  suc, ◌+◌, ◌≡◌, ◌↔◌, refl, sym, ◌∙◌, inl, inr, true, false, some, List, [], ◌∷◌, map, arith,
  Result, ok, err, includes, dedup, length, ◌==◌, Bool-cases, Option-cases, ap, ==_iff,
}
use najva_messenger.Base.Sets.{
  IsDistinct, IsWithin, includes_all, length-IsWithin, includes-dedup, dedup-IsDistinct,
  includes-tail,
}
use najva_messenger.Store.{Text}
use najva_messenger.Conversation.ShareSet.{
  RawWrap, CkWrap, read_wrap, cons_wrap, check_wraps, assert_share_set, users_of,
}

-- The loop accepts: each user is required and new, and at the end all have been seen.
abbrev Accepts : List Text → List Text → List CkWrap → Type 0
Accepts required seen [] = length seen ≡ length (dedup required)
Accepts required seen (v ∷ vs) =
    (includes v.user_id required ≡ true)
    × (includes v.user_id seen ≡ false)
    × Accepts required (v.user_id ∷ seen) vs

cons_wrap-ok :
    (v : CkWrap) (r : Result (List CkWrap)) (ws : List CkWrap)
    → cons_wrap v r ≡ ok ws
    → (vs : List CkWrap) × (r ≡ ok vs) × (ws ≡ v ∷ vs)
cons_wrap-ok v (ok vs) ws e = (vs, refl, cc)
cons_wrap-ok v (err x) ws e = absurd (cc e)

check_wraps-Accepts :
    (rs : List RawWrap) (required seen : List Text) (ws : List CkWrap)
    → check_wraps rs required seen ≡ ok ws
    → (map read_wrap rs ≡ map some ws) × Accepts required seen ws
unfolding check_wraps
check_wraps-Accepts [] required seen ws e =
    elim (Bool-cases (length seen == length (dedup required))) [
      | inl same ↦ let nil : ws ≡ [] = cc (rw same at e) in rw nil (refl, ground (arith, same))
      | inr short ↦ absurd (cc (rw short at e))
    ]
check_wraps-Accepts (r ∷ rs) required seen ws e = elim (Option-cases (read_wrap r)) [
  | inl bad ↦ absurd (cc (rw bad at e))
  | inr (v, good) ↦ elim (Bool-cases (includes v.user_id required)) [
    | inr stranger ↦ absurd (cc (rw (good, stranger) at e))
    | inl wanted ↦ elim (Bool-cases (includes v.user_id seen)) [
      | inl twice ↦ absurd (cc (rw (good, wanted, twice) at e))
      | inr new ↦
          let e' = rw (good, wanted, new) at e in
          let rest = cons_wrap-ok v (check_wraps rs required (v.user_id ∷ seen)) ws e' in
          let ih = check_wraps-Accepts rs required (v.user_id ∷ seen) rest.0 rest.1 in
          rw rest.2 (cc (good, ih.0), (wanted, new, ih.1))
    ]
  ]
]

Accepts-check_wraps :
    (rs : List RawWrap) (required seen : List Text) (ws : List CkWrap)
    → map read_wrap rs ≡ map some ws
    → Accepts required seen ws
    → check_wraps rs required seen ≡ ok ws
unfolding check_wraps
Accepts-check_wraps [] required seen [] e a = ground arith
Accepts-check_wraps [] required seen (v ∷ vs) e a = absurd (cc)
Accepts-check_wraps (r ∷ rs) required seen [] e a = absurd (cc)
Accepts-check_wraps (r ∷ rs) required seen (v ∷ vs) e a =
    let good : read_wrap r ≡ some v = cc in
    rw (good, a.0, a.1, Accepts-check_wraps rs required (v.user_id ∷ seen) vs (cc) a.2)

-- The wraps cover the required members: one for each, and none for anybody else.
abbrev pub Covers : List CkWrap → List Text → Type 0
Covers ws required =
    IsDistinct (users_of ws) × ((id : Text) → includes id (users_of ws) ≡ includes id required)

length-users_of : (ws : List CkWrap) → length (users_of ws) ≡ length ws
length-users_of [] = refl
length-users_of (v ∷ vs) = ap suc (length-users_of vs)

-- What the loop has checked, wrap by wrap.
Accepts-parts :
    (required seen : List Text) (ws : List CkWrap)
    → Accepts required seen ws
    → IsDistinct (users_of ws)
      × ((id : Text)
          → includes id (users_of ws) ≡ true
          → (includes id required ≡ true) × (includes id seen ≡ false))
      × (length seen + length ws ≡ length (dedup required))
unfolding includes
Accepts-parts required seen [] a = (tt, λ id h. absurd (cc h), omega arith)
Accepts-parts required seen (v ∷ vs) a =
    let ih = Accepts-parts required (v.user_id ∷ seen) vs a.2 in
    (
      (
        elim (Bool-cases (includes v.user_id (users_of vs))) [
          | inl again ↦ absurd (ground (arith, ih.1 v.user_id again))
          | inr new ↦ new
        ],
        ih.0,
      ),
      λ id h. elim (Bool-cases (v.user_id == id)) [
        | inl same ↦
            subst (λ i. (includes i required ≡ true) × (includes i seen ≡ false))
              ((==_iff v.user_id id).0 same) (a.0, a.1)
        | inr other ↦ let known = ih.1 id (rw other at h) in (known.0, (rw other at known.1))
      ],
      omega (arith, ih.2),
    )

parts-Accepts :
    (required seen : List Text) (ws : List CkWrap)
    → IsDistinct (users_of ws)
    → ((id : Text)
        → includes id (users_of ws) ≡ true
        → (includes id required ≡ true) × (includes id seen ≡ false))
    → length seen + length ws ≡ length (dedup required)
    → Accepts required seen ws
unfolding includes
parts-Accepts required seen [] d m l = omega arith
parts-Accepts required seen (v ∷ vs) d m l =
    let mine = m v.user_id (ground arith) in
    (
      mine.0,
      mine.1,
      parts-Accepts required (v.user_id ∷ seen) vs d.1
          (λ id h.
            let known = m id (includes-tail id v.user_id (users_of vs) h) in
            elim (Bool-cases (v.user_id == id)) [
              | inl same ↦ absurd (cc (d.0, (==_iff v.user_id id).0 same, h))
              | inr other ↦ (known.0, rw other known.1)
            ])
          (omega arith),
    )

covers_required :
    (required : List Text) (ws : List CkWrap)
    → IsDistinct (users_of ws)
    → IsWithin (users_of ws) required
    → length ws ≡ length (dedup required)
    → (id : Text) → includes id (users_of ws) ≡ includes id required
covers_required required ws d m l id = elim (Bool-cases (includes id required)) [
  | inl wanted ↦
      includes_all (users_of ws) (dedup required) id d (λ j k. includes-dedup j required ∙ m j k)
        (omega (arith, length-users_of ws)) (includes-dedup id required ∙ wanted)
      ∙ sym wanted
  | inr stranger ↦ elim (Bool-cases (includes id (users_of ws))) [
    | inl there ↦ absurd (cc (m id there, stranger))
    | inr missing ↦ missing ∙ sym stranger
  ]
]

covers-length :
    (required : List Text) (ws : List CkWrap)
    → IsDistinct (users_of ws)
    → ((id : Text) → includes id (users_of ws) ≡ includes id required)
    → length ws ≡ length (dedup required)
covers-length required ws d same = omega (
  arith,
  length-users_of ws,
  length-IsWithin (users_of ws) (dedup required) d
      (λ id k. includes-dedup id required ∙ sym (same id) ∙ k),
  length-IsWithin (dedup required) (users_of ws) (dedup-IsDistinct required)
      (λ id k. same id ∙ sym (includes-dedup id required) ∙ k),
)

-- `assertShareSet` returns exactly the wraps that a client sent, where each of them is well formed
-- (a text for the user, a wrapped key that is not empty) and they cover the required members: one
-- wrap for each of them, and none for anybody else. In every other case it throws.
pub assert_share_set_iff :
    (raws : List RawWrap) (required : List Text) (ws : List CkWrap)
    → (assert_share_set (some raws) required ≡ ok ws)
      ↔ ((map read_wrap raws ≡ map some ws) × Covers ws required)
unfolding assert_share_set includes
assert_share_set_iff raws required ws = (
  λ e.
      let run = check_wraps-Accepts raws required [] ws e in
      let parts = Accepts-parts required [] ws run.1 in
      (
        run.0,
        (
          parts.0,
          covers_required required ws parts.0 (λ id h. (parts.1 id h).0) (omega (arith, parts.2)),
        ),
      ),
  λ h. Accepts-check_wraps raws required [] ws h.0 (
      parts-Accepts required [] ws h.1.0 (λ id k. (sym (h.1.1 id) ∙ k, refl))
        (omega (arith, covers-length required ws h.1.0 h.1.1))),
)
