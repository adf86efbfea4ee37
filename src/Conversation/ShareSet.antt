-- ===== src/Conversation/ShareSet.antt =====
-- `assertShareSet`: the wraps of a new conversation key, one for each required member.
pub mod Exact
use najva_messenger.Base.{
  ℕ, ◌≡◌, String, Bool, true, false, ◌&&◌, not, Option, none, some, List, [], ◌∷◌, map, Result, ok,
  err, thrown, thrown_for, length, includes, dedup, ◌==◌, if◌then◌else◌,
}
use najva_messenger.Store.{Text, falsy}

-- A wrap as a client sends it: each part may be missing or of another type.
pub record RawWrap : Type 0 where
  pub user_id : Option Text
  pub wrapped_key : Option Text

pub record CkWrap : Type 0 where
  pub user_id : Text
  pub wrapped_key : Text

abbrev read_parts : Option Text → Option Text → Option CkWrap
read_parts (some user) (some key) =
    if falsy key then none else some (record { user_id = user; wrapped_key = key })
read_parts _ _ = none

-- `!w || typeof w.userId !== 'string' || !w.wrappedKey` fails. A wrapped key is a text here: a value of
-- another type, which this test lets pass where it is truthy, is not modelled.
unfoldable pub read_wrap : RawWrap → Option CkWrap
read_wrap r = read_parts r.user_id r.wrapped_key

abbrev pub cons_wrap : CkWrap → Result (List CkWrap) → Result (List CkWrap)
cons_wrap v (ok vs) = ok (v ∷ vs)
cons_wrap v (err e) = err e

-- One turn of the loop; `rest` is what follows, from the users seen then.
abbrev check_wrap :
    List Text
    → List Text
    → Option CkWrap
    → (List Text → Result (List CkWrap))
    → Result (List CkWrap)
check_wrap required seen none rest = err (thrown "Malformed conversation-key wrap" 400)
check_wrap required seen (some v) rest =
    if not (includes v.user_id required)
    then err (thrown_for "Unexpected wrap for " v.user_id 400)
    else if includes v.user_id seen
    then err (thrown_for "Duplicate wrap for " v.user_id 400)
    else cons_wrap v (rest (v.user_id ∷ seen))

-- The loop over the wraps, with the users seen so far; at its end the number of users seen is
-- compared with the number required.
pub check_wraps : List RawWrap → List Text → List Text → Result (List CkWrap)
check_wraps [] required seen =
    if length seen == length (dedup required)
    then ok []
    else err (thrown "Incomplete conversation-key share set" 400)
check_wraps (r ∷ rs) required seen =
    check_wrap required seen (read_wrap r) (check_wraps rs required)

unfoldable pub assert_share_set : Option (List RawWrap) → List Text → Result (List CkWrap)
unfolding check_wraps read_wrap
assert_share_set none required = err (thrown "Missing conversation-key wraps" 400)
assert_share_set (some raws) required = check_wraps raws required []

abbrev pub users_of : List CkWrap → List Text
users_of = map (λ v. v.user_id)
