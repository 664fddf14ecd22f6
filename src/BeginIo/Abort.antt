-- ===== src/BeginIo/Abort.antt =====
-- AbortIO and the release of the held requests.
use virtual_scsidevice.Base.{
  ℕ, ◌+◌, ◌==◌, ◌≢◌, ◌↔◌, true, Option, none, some, List, [], ◌∷◌, ◌≡◌, refl, subst, sym, ==_iff,
  if_ind, arith,
}
use virtual_scsidevice.Chain.{count, count_head}
use virtual_scsidevice.Errors.{IoError, no_error, ioerr_aborted, ioerr_nocmd}
use virtual_scsidevice.Request.{IoRequest}
use virtual_scsidevice.BeginIo.{
  RequestUnit, Outcome, keep, reply_with, remove_msg, with_msg, abort_found, abort_port, abort_io,
  reply_held_async_reqs,
}
use virtual_scsidevice.BeginIo.Conserve.{ids, kept, given_back, ids-append, ids-reply_with}

-- The loop finds the request exactly when it is queued, and takes it out once.
abbrev Removed : ℕ → List IoRequest → Option (List IoRequest) → Type 0
Removed id port none = count id (ids port) ≡ 0
Removed id port (some rest) = (j : ℕ) → count j (ids port) ≡ count j (id ∷ []) + count j (ids rest)

with_msg-Removed :
    (id : ℕ) (msg : IoRequest) (port : List IoRequest) (rest : Option (List IoRequest))
    → (msg.id ≡ id → ⊥)
    → Removed id port rest
    → Removed id (msg ∷ port) (with_msg msg rest)
with_msg-Removed id msg port none ne r = ground arith
with_msg-Removed id msg port (some rest) ne r = λ j. omega (arith, r j)

remove_msg-Removed : (id : ℕ) (port : List IoRequest) → Removed id port (remove_msg id port)
unfolding remove_msg
remove_msg-Removed id [] = refl
remove_msg-Removed id (msg ∷ port) =
    let tail = remove_msg-Removed id port in
    if_ind (Removed id (msg ∷ port)) (msg.id == id) (some port) (with_msg msg (remove_msg id port))
      (λ e j.
        subst (λ i. count j (ids (msg ∷ port)) ≡ count j (i ∷ []) + count j (ids port))
          ((==_iff msg.id id).0 e) (omega arith))
      (λ e. with_msg-Removed id msg port (remove_msg id port) (λ k. ground (arith, e, k)) tail)

-- What AbortIO promises for a unit whose port is `port`: on success the request alone is replied, as
-- aborted, and it leaves the queue once; else nothing changes.
abbrev pub Aborts : RequestUnit → IoRequest → IoError × Outcome → Type 0
Aborts unit req (no_error, out) =
    (out.replied ≡ record req { io_error = ioerr_aborted } ∷ [])
    × ((j : ℕ) → given_back j out + kept j out.unit ≡ kept j (some unit))
Aborts unit req (_, out) = out ≡ keep unit []

abort_found-Aborts :
    (unit : RequestUnit) (req : IoRequest) (port : List IoRequest) (rest : Option (List IoRequest))
    → unit.io_port ≡ some port
    → Removed req.id port rest
    → Aborts unit req (abort_found unit req rest)
unfolding kept
abort_found-Aborts unit req port none e r = refl
abort_found-Aborts unit req port (some rest) e r = (refl, λ j. rw e (omega (arith, r j)))

abort_port-Aborts :
    (unit : RequestUnit) (port : Option (List IoRequest)) (req : IoRequest)
    → unit.io_port ≡ port
    → Aborts unit req (abort_port unit port req)
abort_port-Aborts unit none req e = refl
abort_port-Aborts unit (some port) req e =
    if_ind (Aborts unit req) unit.port_mutex (abort_found unit req (remove_msg req.id port))
      (ioerr_nocmd, keep unit [])
      (λ m.
        abort_found-Aborts unit req port (remove_msg req.id port) e
          (remove_msg-Removed req.id port))
      (λ m. refl)

-- AbortIO on a unit either replies the request alone, with IOERR_ABORTED, having taken it out of the
-- unit's queue once, and returns 0; or it returns IOERR_NOCMD and changes nothing.
pub abort_io-Aborts :
    (unit : RequestUnit) (req : IoRequest) → Aborts unit req (abort_io (some unit) req)
unfolding abort_io
abort_io-Aborts unit req = abort_port-Aborts unit unit.io_port req refl

abort_found_iff :
    (unit : RequestUnit) (req : IoRequest) (port : List IoRequest) (rest : Option (List IoRequest))
    → Removed req.id port rest
    → ((abort_found unit req rest).0 ≡ no_error) ↔ (count req.id (ids port) ≢ 0)
abort_found_iff unit req port none r = (λ e. cc, λ n. absurd (n r))
abort_found_iff unit req port (some rest) r =
    (λ e z. omega (arith, r req.id, count_head req.id []), λ n. refl)

-- AbortIO on a unit with a running task succeeds exactly when the request stands in the unit's
-- queue.
abort_io_iff :
    (unit : RequestUnit) (port : List IoRequest) (req : IoRequest)
    → unit.io_port ≡ some port
    → unit.port_mutex ≡ true
    → ((abort_io (some unit) req).0 ≡ no_error) ↔ (count req.id (ids port) ≢ 0)
unfolding abort_io
abort_io_iff unit port req e m =
    let Right = λ (o : IoError × Outcome). (o.0 ≡ no_error) ↔ (count req.id (ids port) ≢ 0) in
    subst (λ p. Right (abort_port unit p req)) (sym e)
      (if_ind Right unit.port_mutex (abort_found unit req (remove_msg req.id port))
        (ioerr_nocmd, keep unit [])
        (λ t.
          abort_found_iff unit req port (remove_msg req.id port) (remove_msg-Removed req.id port))
        (λ f. cc))

-- Reply_Held_Async_Reqs replies each held request once with the given error, keeps none held, leaves
-- the queue alone, and does nothing when it is called again.
reply_held_async_reqs-clears :
    (unit : RequestUnit) (err err' : IoError)
    → let out = reply_held_async_reqs unit err in
      ((j : ℕ) → count j (ids out.1) + kept j (some out.0) ≡ kept j (some unit))
      × (out.0.io_port ≡ unit.io_port)
      × (reply_held_async_reqs out.0 err' ≡ (out.0, []))
unfolding reply_held_async_reqs kept
reply_held_async_reqs-clears unit err err' =
    let first = reply_with err unit.changeint_req in
    let second = reply_with err unit.remove_req in
    (
      (λ j. omega (
        arith,
        ids-append j first second,
        ids-reply_with j err unit.changeint_req,
        ids-reply_with j err unit.remove_req,
      )),
      refl,
      refl,
    )
