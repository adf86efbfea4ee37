-- ===== src/PreKeys/OneTime.antt =====
-- A one-time pre-key is handed out once.
use mathlib.Core.Path.{subst}
use najva_messenger.Base.Tables.Laws.{All-Among, Among-self, All-select_keep, All-update}
use najva_messenger.Base.{
  true-both, ok-inj, ◌≡◌, ◌≢◌, refl, sym, ap, ◌∙◌, inl, inr, Bool, true, false, not, some, List, [],
  ◌∷◌, ◌++◌, map, ℕ, ok, find, select, exists, update, map_option, All, Among, Bool-cases,
  Option-cases, ◌==◌, ==_iff, leb, value-inj, if◌then◌else◌, arith,
}
use najva_messenger.Base.Order.{insert_asc, order_asc}
use najva_messenger.Store.{Text, World, PreKey}
use najva_messenger.PreKeys.{
  PreKeyData, BundleData, has_user_id, pre_key_row, upload_bundle, is_unused, has_pre_key_id,
  first_of, next_pre_key, get_pre_key,
}

module _ {A : Type 0} (P : A → Type 0) (key : A → ℕ) where
  All-insert_asc : (x : A) (xs : List A) → P x → All P xs → All P (insert_asc key x xs)
  unfolding insert_asc
  All-insert_asc x [] p h = (p, tt)
  All-insert_asc x (y ∷ ys) p h = elim (Bool-cases (leb (key x) (key y))) [
    | inl before ↦ rw before (p, h)
    | inr after ↦ rw after (h.0, All-insert_asc x ys p h.1)
  ]

  All-order_asc : (xs : List A) → All P xs → All P (order_asc key xs)
  unfolding order_asc
  All-order_asc [] h = tt
  All-order_asc (x ∷ xs) h = All-insert_asc x (order_asc key xs) h.0 (All-order_asc xs h.1)

first_of-All :
    (P : PreKey → Type 0) (ks : List PreKey) (k : PreKey) → All P ks → first_of ks ≡ some k → P k
first_of-All P [] k h e = absurd (cc e)
first_of-All P (x ∷ ks) k h e = subst P (cc e) h.0

unused-select :
    (user : Text) (ks : List PreKey)
    → All (λ k. is_unused user k ≡ true) (select (is_unused user) ks)
unfolding select
unused-select user [] = tt
unused-select user (k ∷ ks) = elim (Bool-cases (is_unused user k)) [
  | inl hit ↦ rw hit (hit, unused-select user ks)
  | inr miss ↦ rw miss (unused-select user ks)
]

false-not : (b : Bool) → not b ≡ true → b ≡ false
false-not true e = absurd (cc e)
false-not false e = refl

-- The calls of the key service that change pre-keys.
pub data Call : Type 0 where
  fetch : (user : Text) → Call
  upload : (user : Text) (bundle : BundleData) → Call

unfoldable pub run_calls : List Call → World → World
run_calls [] w = w
run_calls (Call.fetch user ∷ cs) w = run_calls cs (get_pre_key user w).1
run_calls (Call.upload user d ∷ cs) w = run_calls cs (upload_bundle user d w).1

-- A call gives the identifier to no new row.
abbrev pub Avoids : Text → Call → Type 0
Avoids id (Call.fetch user) = Unit {0}
Avoids id (Call.upload user d) = All (λ k. k.id ≢ id) d.pre_keys

-- Every row with the identifier is used.
abbrev IsSpent : Text → List PreKey → Type 0
IsSpent id ks = All (λ k. k.id ≡ id → k.used ≡ true) ks

spend-IsSpent :
    (id : Text) (ks : List PreKey)
    → IsSpent id (update (has_pre_key_id id) (λ x. record x { used = true }) ks)
unfolding update
spend-IsSpent id [] = tt
spend-IsSpent id (k ∷ ks) = elim (Bool-cases (has_pre_key_id id k)) [
  | inl hit ↦ rw hit ((λ e. refl), spend-IsSpent id ks)
  | inr miss ↦ rw miss ((λ e. absurd (cc (miss, (==_iff k.id id).1 e))), spend-IsSpent id ks)
]

upload-IsSpent :
    (id user : Text) (new : List PreKeyData) (ks : List PreKey)
    → All (λ k. k.id ≢ id) new
    → IsSpent id ks
    → IsSpent id (map (pre_key_row user) new ++ ks)
upload-IsSpent id user [] ks h s = s
upload-IsSpent id user (k ∷ new) ks h s =
    ((λ e. absurd (h.0 e)), upload-IsSpent id user new ks h.1 s)

fetch-IsSpent :
    (id user : Text) (w : World)
    → IsSpent id w.pre_keys
    → IsSpent id (get_pre_key user w).1.pre_keys
unfolding get_pre_key
fetch-IsSpent id user w s = elim (Option-cases (next_pre_key user w)) [
  | inl nothing ↦ rw nothing s
  | inr (k, next) ↦ rw next (
      All-update _ (has_pre_key_id k.id) (λ x. record x { used = true }) w.pre_keys
        (λ x h e. λ _. refl) s)
]

upload_bundle-IsSpent :
    (id user : Text) (d : BundleData) (w : World)
    → All (λ k. k.id ≢ id) d.pre_keys
    → IsSpent id w.pre_keys
    → IsSpent id (upload_bundle user d w).1.pre_keys
unfolding upload_bundle
upload_bundle-IsSpent id user d w a s = elim (Bool-cases (exists (has_user_id user) w.users)) [
  | inl known ↦ rw known (upload-IsSpent id user d.pre_keys w.pre_keys a s)
  | inr unknown ↦ rw unknown s
]

run_calls-IsSpent :
    (id : Text) (cs : List Call) (w : World)
    → All (Avoids id) cs
    → IsSpent id w.pre_keys
    → IsSpent id (run_calls cs w).pre_keys
unfolding run_calls
run_calls-IsSpent id [] w a s = s
run_calls-IsSpent id (Call.fetch user ∷ cs) w a s =
    run_calls-IsSpent id cs (get_pre_key user w).1 a.1 (fetch-IsSpent id user w s)
run_calls-IsSpent id (Call.upload user d ∷ cs) w a s =
    run_calls-IsSpent id cs (upload_bundle user d w).1 a.1 (upload_bundle-IsSpent id user d w a.0 s)

-- A row after the key with an identifier was used up.
abbrev pub after_use : (used_id id : Text) → PreKey → PreKey
after_use used_id id k = if used_id == id then record k { used = true } else k

find-used :
    (used_id id : Text) (ks : List PreKey)
    → find (has_pre_key_id id) (update (has_pre_key_id used_id) (λ x. record x { used = true }) ks)
      ≡ map_option (after_use used_id id) (find (has_pre_key_id id) ks)
unfolding find update
find-used used_id id [] = refl
find-used used_id id (k ∷ ks) = ground (arith, find-used used_id id ks)

-- What is handed out is a row of the table that is the user's and unused.
next-Among :
    (user : Text) (w : World) (k : PreKey)
    → next_pre_key user w ≡ some k
    → Among k w.pre_keys × (k.user_id ≡ user) × (k.used ≡ false)
next-Among user w k found =
    let unused = true-both _ _ (
      first_of-All (λ x. is_unused user x ≡ true) _ k
        (All-order_asc _ (λ x. x.key_id) _ (unused-select user w.pre_keys)) found) in
    (
      first_of-All (λ x. Among x w.pre_keys) _ k
          (All-order_asc _ (λ x. x.key_id) _
            (All-select_keep _ (is_unused user) w.pre_keys (Among-self w.pre_keys)))
          found,
      (==_iff k.user_id user).0 unused.0,
      false-not k.used unused.1,
    )

-- A pre-key that `getPreKey` hands out is a row of the table that is the user's and was unused; the
-- row with its identifier is used then, and the rows with other identifiers are as they were. After
-- any further calls of `getPreKey` and `uploadBundle`, for whichever users, of which none gives that
-- identifier to a new row, a call for whichever user that hands out a key hands out one with another
-- identifier.
pub get_pre_key_once :
    (user : Text) (w w' : World) (k : PreKey) (calls : List Call) (user' : Text) (k' : PreKey)
    → get_pre_key user w ≡ (ok (some k), w')
    → All (Avoids k.id) calls
    → (get_pre_key user' (run_calls calls w')).0 ≡ ok (some k')
    → (Among k w.pre_keys × (k.user_id ≡ user) × (k.used ≡ false))
      × ((id : Text)
          → find (has_pre_key_id id) w'.pre_keys
            ≡ map_option (after_use k.id id) (find (has_pre_key_id id) w.pre_keys))
      × (k'.id ≢ k.id)
unfolding get_pre_key
get_pre_key_once user w w' k calls user' k' e avoids e' =
    let found : next_pre_key user w ≡ some k = (ok-inj e).0 in
    let left = (ok-inj (rw found at e)).1 in
    let spent : IsSpent k.id w'.pre_keys =
      subst (λ (v : World). IsSpent k.id v.pre_keys) left (spend-IsSpent k.id w.pre_keys) in
    let got = next-Among user' (run_calls calls w') k' (value-inj e') in
    (
      next-Among user w k found,
      λ id.
          ap (λ (v : World). find (has_pre_key_id id) v.pre_keys) (sym left)
          ∙ find-used k.id id w.pre_keys,
      λ same.
          let used : k'.used ≡ true =
            All-Among _ (run_calls calls w').pre_keys k'
              (run_calls-IsSpent k.id calls w' avoids spent) got.0 same in
          absurd (cc (used, got.2)),
    )
