-- ===== src/Server/Shutdown.antt =====
-- `ShutdownOrInactive` of src/server.rs: when the main loop of the server ends.
use sccache.Prelude.{
  ℕ, ◌+◌, ◌≤◌, List, [], ◌∷◌, ◌++◌, ◌≡◌, refl, ◌∙◌, ap, sym, ◌↔◌, ◌⊎◌, inl, inr, Option, none, some,
  Bool, true, false, if◌then◌else◌, leb, leb→le, le→leb, Bool-cases, subst,
}
use sccache.Server.Service.{ServerMessage, request, shutdown}

-- `Timeout` of tokio: `new` starts a timer, if it can, and `expired` polls it, both with the time.
pub record Timer : Type 1 where
  pub Timeout : Type 0
  pub new : ℕ → ℕ → Option Timeout
  pub expired : ℕ → Timeout → Bool

-- A timer can be started, and has expired once its duration has passed.
pub record TimerLaws (timer : Timer) : Type 0 where
  pub starts : (now dur : ℕ) → (t : timer.Timeout) × (timer.new now dur ≡ some t)
  pub expired_iff :
      (now dur later : ℕ) (t : timer.Timeout)
      → timer.new now dur ≡ some t
      → timer.expired later t ≡ leb (now + dur) later

pub data Poll : Type 0 where
  ready not_ready failed : Poll

module _ (timer : Timer) where
  pub record ShutdownOrInactive : Type 0 where
    pub timeout : timer.Timeout
    pub timeout_dur : ℕ

  unfoldable pub poll_timeout : ℕ → timer.Timeout → Poll
  poll_timeout now t = if timer.expired now t then ready else not_ready

  -- `ShutdownOrInactive::poll`, with the time, the messages that have come, in order, and whether
  -- the channel is closed behind them.
  unfoldable pub poll :
      ℕ → ShutdownOrInactive → List ServerMessage → Bool → ShutdownOrInactive × Poll
  unfolding poll_timeout
  poll now s [] closed = if closed then (s, ready) else (s, poll_timeout now s.timeout)
  poll now s (shutdown ∷ messages) closed = (s, ready)
  poll now s (request ∷ messages) closed = elim (timer.new now s.timeout_dur) [
    | none ↦ (s, failed)
    | some t ↦ poll now (record s { timeout = t }) messages closed
  ]

  -- The polls of the main loop, each with its time and its messages, as long as it goes on.
  unfoldable pub watch :
      ShutdownOrInactive → List (ℕ × List ServerMessage) → Option ShutdownOrInactive
  unfolding poll
  watch s [] = some s
  watch s ((now, messages) ∷ rounds) =
      let (s', polled) = poll now s messages false in
      let rest = watch s' rounds in elim polled [ not_ready ↦ rest | ready ↦ none | failed ↦ none ]

unfoldable pub asks_shutdown : List ServerMessage → Bool
asks_shutdown [] = false
asks_shutdown (shutdown ∷ messages) = true
asks_shutdown (request ∷ messages) = asks_shutdown messages

-- The time of the last round with a request, or else the given one.
unfoldable pub last_request : ℕ → List (ℕ × List ServerMessage) → ℕ
last_request start [] = start
last_request start ((now, []) ∷ rounds) = last_request start rounds
last_request start ((now, m ∷ messages) ∷ rounds) = last_request now rounds

module _ (timer : Timer) (laws : TimerLaws timer) where
  -- The timer was started at `from`.
  record Since (from : ℕ) (dur : ℕ) (s : ShutdownOrInactive timer) : Type 0 where
    dur_eq : s.timeout_dur ≡ dur
    started : timer.new from dur ≡ some (s.timeout)

  abbrev latest : ℕ → ℕ → List ServerMessage → ℕ
  latest from now [] = from
  latest from now (m ∷ messages) = now

  latest_same : (now : ℕ) (messages : List ServerMessage) → latest now now messages ≡ now
  latest_same now [] = refl
  latest_same now (m ∷ messages) = refl

  -- What a poll without a shutdown message does.
  record Polled (from dur now : ℕ) (r : ShutdownOrInactive timer × Poll) : Type 0 where
    since : Since from dur r.0
    result : r.1 ≡ (if leb (from + dur) now then ready else not_ready)

  poll-Polled :
      (from dur now : ℕ) (s : ShutdownOrInactive timer) (messages : List ServerMessage)
      → Since from dur s
      → asks_shutdown messages ≡ false
      → Polled (latest from now messages) dur now (poll timer now s messages false)
  unfolding poll poll_timeout asks_shutdown
  poll-Polled from dur now s [] h quiet = record {
    since = h;
    result =
        ap (λ b. if b then ready else not_ready)
          (laws.expired_iff from dur now s.timeout h.started);
  }
  poll-Polled from dur now s (shutdown ∷ messages) h quiet = absurd (asked quiet)
    where
      asked : true ≡ false → ⊥
      asked q = cc
  poll-Polled from dur now s (request ∷ messages) h quiet =
      let (t, q) = laws.starts now dur in
      let s' : ShutdownOrInactive timer = record { timeout = t; timeout_dur = s.timeout_dur } in
      let again : Since now dur s' = record { dur_eq = h.dur_eq; started = q } in
      rw (h.dur_eq, q, poll)
        (subst (λ f. Polled f dur now (poll timer now s' messages false)) (latest_same now messages)
          (poll-Polled now dur now s' messages again quiet))

  poll-asks_shutdown :
      (now : ℕ) (s : ShutdownOrInactive timer) (messages : List ServerMessage) (closed : Bool)
      → asks_shutdown messages ≡ true
      → (poll timer now s messages closed).1 ≡ ready
  unfolding poll asks_shutdown
  poll-asks_shutdown now s [] closed h = absurd (silent h)
    where
      silent : false ≡ true → ⊥
      silent q = cc
  poll-asks_shutdown now s (shutdown ∷ messages) closed h = refl
  poll-asks_shutdown now s (request ∷ messages) closed h =
      let (t, q) = laws.starts now s.timeout_dur in
      rw (q, poll) (poll-asks_shutdown now (record s { timeout = t }) messages closed h)

  last_request-round :
      (from now : ℕ) (messages : List ServerMessage) (rounds : List (ℕ × List ServerMessage))
      → last_request (latest from now messages) rounds
        ≡ last_request from ((now, messages) ∷ rounds)
  unfolding last_request
  last_request-round from now [] rounds = refl
  last_request-round from now (m ∷ messages) rounds = refl

  last_request-append :
      (from now : ℕ) (messages : List ServerMessage) (rounds : List (ℕ × List ServerMessage))
      → last_request from (rounds ++ (now, messages) ∷ [])
        ≡ latest (last_request from rounds) now messages
  unfolding last_request
  last_request-append from now [] [] = refl
  last_request-append from now (m ∷ messages) [] = refl
  last_request-append from now messages ((t, []) ∷ rounds) =
      last_request-append from now messages rounds
  last_request-append from now messages ((t, m ∷ ms) ∷ rounds) =
      last_request-append t now messages rounds

  stopped : {s : ShutdownOrInactive timer} → ◌≡◌ {A = Option _} none (some s) → ⊥
  stopped h = cc

  same_state : {s t : ShutdownOrInactive timer} → some s ≡ some t → s ≡ t
  same_state h = cc

  poll_cases : (p : Poll) → (p ≡ not_ready) ⊎ ((p ≡ ready) ⊎ (p ≡ failed))
  poll_cases not_ready = inl refl
  poll_cases ready = inr (inl refl)
  poll_cases failed = inr (inr refl)

  not_both : ready ≡ not_ready → ⊥
  not_both h = cc

  watch-Since :
      (from dur : ℕ) (s s' : ShutdownOrInactive timer) (rounds : List (ℕ × List ServerMessage))
      → Since from dur s
      → watch timer s rounds ≡ some s'
      → Since (last_request from rounds) dur s'
  unfolding watch last_request
  watch-Since from dur s s' [] h e = subst (Since from dur) (same_state e) h
  watch-Since from dur s s' ((now, messages) ∷ rounds) h e =
      elim (poll_cases (poll timer now s messages false).1) [
        | inr (inl q) ↦ absurd (stopped (rw (q, watch) at e))
        | inr (inr q) ↦ absurd (stopped (rw (q, watch) at e))
        | inl q ↦ elim (Bool-cases (asks_shutdown messages)) [
          | inl asked ↦ absurd (not_both (sym (poll-asks_shutdown now s messages false asked) ∙ q))
          | inr quiet ↦
              let polled = poll-Polled from dur now s messages h quiet in
              subst (λ f. Since f dur s') (last_request-round from now messages rounds)
                (watch-Since (latest from now messages) dur (poll timer now s messages false).0 s'
                  rounds polled.since (rw (q, watch) at e))
        ]
      ]

  ready_iff : (b : Bool) → ((if b then ready else not_ready) ≡ ready) ↔ (b ≡ true)
  ready_iff true = (λ h. refl, λ h. refl)
  ready_iff false = (λ h. cc, λ h. cc)

  -- A server that has not stopped yet, and whose timers can be started, stops at a poll exactly if a
  -- shutdown message has come, or the idle time has passed since the last request, or since the
  -- start if there was none.
  pub watch-poll :
      (start dur now : ℕ) (t : timer.Timeout) (s : ShutdownOrInactive timer)
      (rounds : List (ℕ × List ServerMessage)) (messages : List ServerMessage)
      → timer.new start dur ≡ some t
      → watch timer (record { timeout = t; timeout_dur = dur }) rounds ≡ some s
      → ((poll timer now s messages false).1 ≡ ready) ↔ (
          (asks_shutdown messages ≡ true)
          ⊎ (last_request start (rounds ++ (now, messages) ∷ []) + dur ≤ now))
  watch-poll start dur now t s rounds messages h e =
      let since : Since start dur (record { timeout = t; timeout_dur = dur }) = record {
        dur_eq = refl;
        started = h;
      } in
      let s-Since = watch-Since start dur _ s rounds since e in
      elim (Bool-cases (asks_shutdown messages)) [
        | inl asked ↦ (λ r. inl asked, λ r. poll-asks_shutdown now s messages false asked)
        | inr quiet ↦
            let from = latest (last_request start rounds) now messages in
            let polled = poll-Polled (last_request start rounds) dur now s messages s-Since quiet in
            let same = last_request-append start now messages rounds in
            let iff = ready_iff (leb (from + dur) now) in
            (
              λ r. inr (rw same (leb→le (from + dur) now (iff.0 (sym polled.result ∙ r)))),
              λ r. elim r [
                | inl asked ↦ poll-asks_shutdown now s messages false asked
                | inr late ↦ polled.result ∙ iff.1 (le→leb (from + dur) now (rw same at late))
              ],
            )
      ]
