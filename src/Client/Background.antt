-- ===== src/Client/Background.antt =====
-- `run_background` of src/thruk_mcp/client.py: a request that starts a job, and the polls of its result.
use thruk_mcp.Client.Requests.{Reply, request_error, answered, Response}
use thruk_mcp.Prelude.{
  ℕ, zero, suc, ◌+◌, ◌*◌, ◌≤◌, ◌<◌, String, ◌≡◌, refl, ap, ◌∙◌, Bool, true, false, ◌||◌, Option,
  none, some, leb, nat_eq, arith, if◌then◌else◌, leb→le, leb→lt, Bool-cases, inl, inr,
}

-- How the polling ends: with a payload, with the text of a body that is no JSON, with no content, with the
-- ThrukError of a status or of the time-out, or with the transport's own exception.
pub data Polled (J : Type 0) : Type 0 where
  gave : Option J → Polled J
  gave_text : String → Polled J
  no_content : Polled J
  job_failed : ℕ → String → Polled J
  timed_out : Polled J
  transport_error : String → Polled J

-- `resp.status_code in (301, 302, 303, 307, 308)`
unfoldable pub is_redirect : ℕ → Bool
is_redirect s = nat_eq s 301 || nat_eq s 302 || nat_eq s 303 || nat_eq s 307 || nat_eq s 308

module _ {J : Type 0} where
  -- a response that is not a redirect
  unfoldable pub finish : Response J → Polled J
  finish r =
      if leb 400 r.status
      then job_failed r.status r.text
      else if r.is_empty
      then no_content
      else elim r.json [ none ↦ gave_text r.text | some p ↦ gave p ]

  -- one round: the reply, whether the deadline has passed, and what the rounds after it give
  unfoldable pub settle_poll : Reply J → Bool → Option (Polled J) → Option (Polled J)
  unfolding finish is_redirect
  settle_poll (request_error e) late rest = some (transport_error e)
  settle_poll (answered r) late rest =
      if is_redirect r.status then (if late then some timed_out else rest) else some (finish r)

  -- The reply and the time of each round are arguments.
  module _ (reply : ℕ → Reply J) (clock : ℕ → ℕ) (deadline : ℕ) where
    -- the loop; none where the fuel runs out
    unfoldable pub poll : ℕ → ℕ → Option (Polled J)
    unfolding settle_poll
    poll zero i = none
    poll (suc fuel) i =
        let rest = poll fuel (suc i) in settle_poll (reply i) (leb deadline (clock i)) rest

-- The payload of the first request names a job or not.
pub data Kicked (J : Type 0) : Type 0 where
  plain : Option J → Kicked J
  job : String → Kicked J

unfoldable pub run_background :
    {J : Type 0} → (ℕ → Reply J) → (ℕ → ℕ) → ℕ → ℕ → ℕ → Kicked J → Option (Polled J)
unfolding poll
run_background reply clock start poll_timeout fuel (plain p) = some (gave p)
run_background reply clock start poll_timeout fuel (job id) =
    poll reply clock (start + poll_timeout) fuel 0

-- a reply that sends the loop round again
abbrev pub waits : {J : Type 0} → Reply J → Bool
waits (request_error _) = false
waits (answered r) = is_redirect r.status

module _ {J : Type 0} (reply : ℕ → Reply J) (clock : ℕ → ℕ) (deadline : ℕ) where
  abbrev pub is_waiting : ℕ → Bool
  is_waiting i = waits (reply i)

  -- The verdict that the loop comes to from a round on: the first reply that is not a redirect gives it,
  -- unless the deadline passes at one before.
  pub data ComesTo : ℕ → Polled J → Type 0 where
    late_at : (i : ℕ) → is_waiting i ≡ true → deadline ≤ clock i → ComesTo i timed_out
    broken_at : (i : ℕ) (e : String) → reply i ≡ request_error e → ComesTo i (transport_error e)
    finished_at :
        (i : ℕ) (r : Response J)
        → reply i ≡ answered r
        → is_redirect r.status ≡ false
        → ComesTo i (finish r)
    waits_at :
        (i : ℕ) (v : Polled J)
        → is_waiting i ≡ true
        → clock i < deadline
        → ComesTo (suc i) v
        → ComesTo i v

  -- one round, when the later ones come to a verdict before the deadline
  Ends : ℕ → ℕ → Type 0
  Ends fuel i = (v : Polled J) × (poll reply clock deadline fuel i ≡ some v) × ComesTo i v

  round-Ends : (fuel i : ℕ) → (clock i < deadline → Ends fuel (suc i)) → Ends (suc fuel) i
  unfolding Ends poll
  round-Ends fuel i later = go (reply i) refl
    where
      go : (r : Reply J) → reply i ≡ r → Ends (suc fuel) i
      go (request_error e) h = (transport_error e, rw (h) refl, broken_at i e h)
      go (answered r) h = elim (Bool-cases (is_redirect r.status)) [
        | inl waiting ↦ elim (Bool-cases (leb deadline (clock i))) [
          | inl late ↦ (
            timed_out,
            rw (h, waiting, late) refl,
            late_at i (ap waits h ∙ waiting) (leb→le deadline (clock i) late),
          )
          | inr early ↦
              let rest = later (leb→lt deadline (clock i) early) in
              (
                rest.0,
                rw (h, waiting, early) rest.1,
                waits_at i rest.0 (ap waits h ∙ waiting) (leb→lt deadline (clock i) early) rest.2,
              )
        ]
        | inr done ↦ (finish r, rw (h, done) refl, finished_at i r h done)
      ]

  -- The polling comes to a verdict within as many rounds, and one more, as there are intervals up to the
  -- deadline, when the clock goes on by an interval at least from each round to the next.
  pub poll-ComesTo :
      (interval k i : ℕ)
      → ((j : ℕ) → clock j + interval ≤ clock (suc j))
      → deadline ≤ clock i + k * interval
      → (v : Polled J) × (poll reply clock deadline (suc k) i ≡ some v) × ComesTo i v
  unfolding Ends
  poll-ComesTo interval zero i sleeps near =
      round-Ends zero i (λ early. absurd (omega (arith, near, early)))
  poll-ComesTo interval (suc k) i sleeps near =
      round-Ends (suc k) i
        (λ early. poll-ComesTo interval k (suc i) sleeps (omega (arith, near, sleeps i)))
