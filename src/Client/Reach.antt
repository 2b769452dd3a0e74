-- ===== src/Client/Reach.antt =====
-- How the client of src/commands.rs reaches a server: its port, and the attempts to connect.
use sccache.Prelude.{
  ℕ, zero, suc, ◌+◌, ◌≤◌, ◌<◌, Text, ◌≡◌, refl, sym, ◌∙◌, ap, ◌⊎◌, inl, inr, Option, some, decimal,
  read_decimal, arith, ◌==◌, Leads, decimal-Leads, read_decimal-decimal, false,
}
use sccache.Client.Connection.{ServerConnection}
use sccache.Client.Start.{
  parse_u16, get_port, ServerStartup, Attempt, connected, refused, no_answer, fails, retry,
  connect_with_retry, start_and_connect, connect_or_start_server,
}

parse_u16-Leads : (t : Text) → Leads t → parse_u16 t ≡ read_decimal 65536 t
unfolding parse_u16
parse_u16-Leads t h =
    let no_sign : ((48 + h.first) == 43) ≡ false = ground arith in rw (h.split, no_sign) refl

parse_u16-decimal : (p : ℕ) → p < 65536 → parse_u16 (decimal p) ≡ some p
parse_u16-decimal p h =
    parse_u16-Leads (decimal p) (decimal-Leads p) ∙ read_decimal-decimal p 65536 h

-- A port that is set in decimal is the one that is used.
pub get_port-decimal : (p : ℕ) → p < 65536 → get_port (some (decimal p)) ≡ p
unfolding get_port
get_port-decimal p h = rw (get_port, parse_u16-decimal p h) refl

attempt_cases :
    (a : Attempt)
    → ((c : ServerConnection) × (a ≡ connected c))
      ⊎ ((a ≡ refused) ⊎ ((a ≡ no_answer) ⊎ (a ≡ fails)))
attempt_cases (connected c) = inl (c, refl)
attempt_cases refused = inr (inl refl)
attempt_cases no_answer = inr (inr (inl refl))
attempt_cases fails = inr (inr (inr refl))

-- One of the attempts from `k` to `k + i` connects and is the result.
record Reached (attempt : ℕ → Attempt) (k i : ℕ) (r : Option ServerConnection) : Type 0 where
  reached : ServerConnection
  number : ℕ
  in_time : number ≤ i
  connects : attempt (k + number) ≡ connected reached
  result : r ≡ some reached

later :
    (attempt : ℕ → Attempt) (k i : ℕ) (r : Option ServerConnection)
    → Reached attempt (suc k) i r
    → Reached attempt k (suc i) r
later attempt k i r h =
    let same : k + suc h.number ≡ suc k + h.number = omega arith in
    let within = h.in_time in
    record {
      reached = h.reached;
      number = suc h.number;
      in_time = omega (arith, within);
      connects = ap attempt same ∙ h.connects;
      result = h.result;
    }

-- If the attempt `k` does not connect, what holds of the rest holds of the whole.
skip :
    (attempt : ℕ → Attempt) (n k i : ℕ) (conn : ServerConnection) (r : Option ServerConnection)
    → ((m : ℕ) → m < n → attempt (suc k + m) ≡ connected conn → Reached attempt (suc k) m r)
    → (attempt k ≡ connected conn → ⊥)
    → i < suc n
    → attempt (k + i) ≡ connected conn
    → Reached attempt k i r
skip attempt n k zero conn r rest missed h e =
    let here : k ≡ k + 0 = omega arith in absurd (missed (ap attempt here ∙ e))
skip attempt n k (suc i) conn r rest missed h e =
    let same : suc k + i ≡ k + suc i = omega arith in
    later attempt k i r (rest i (omega (arith, h)) (ap attempt same ∙ e))

refused_connected : {c : ServerConnection} → refused ≡ connected c → ⊥
refused_connected h = cc

no_answer_connected : {c : ServerConnection} → no_answer ≡ connected c → ⊥
no_answer_connected h = cc

fails_connected : {c : ServerConnection} → fails ≡ connected c → ⊥
fails_connected h = cc

retry-Reached :
    (attempt : ℕ → Attempt) (n k i : ℕ) (conn : ServerConnection)
    → i < n
    → attempt (k + i) ≡ connected conn
    → Reached attempt k i (retry attempt k n)
unfolding retry
retry-Reached attempt zero k i conn h e = absurd (omega (arith, h))
retry-Reached attempt (suc n) k i conn h e =
    let rest : (m : ℕ)
        → m < n
        → attempt (suc k + m) ≡ connected conn
        → Reached attempt (suc k) m (retry attempt (suc k) n) =
      λ m b q. retry-Reached attempt n (suc k) m conn b q in
    elim (attempt_cases (attempt k)) [
      | inl (c, q) ↦
          let here : k + 0 ≡ k = omega arith in
          rw (q, retry)
            (record {
              reached = c;
              number = 0;
              in_time = omega arith;
              connects = ap attempt here ∙ q;
              result = refl;
            })
      | inr (inl q) ↦
          rw (q, retry)
            (skip attempt n k i conn (retry attempt (suc k) n) rest
              (λ c. refused_connected (sym q ∙ c)) h e)
      | inr (inr (inl q)) ↦
          rw (q, retry)
            (skip attempt n k i conn (retry attempt (suc k) n) rest
              (λ c. no_answer_connected (sym q ∙ c)) h e)
      | inr (inr (inr q)) ↦
          rw (q, retry)
            (skip attempt n k i conn (retry attempt (suc k) n) rest
              (λ c. fails_connected (sym q ∙ c)) h e)
    ]

after_refusal :
    (attempt : ℕ → Attempt) (startup : Option ServerStartup)
    → (attempt 0 ≡ refused) ⊎ (attempt 0 ≡ no_answer)
    → connect_or_start_server startup attempt ≡ start_and_connect startup attempt
unfolding connect_or_start_server
after_refusal attempt startup (inl q) = rw (q, connect_or_start_server) refl
after_refusal attempt startup (inr q) = rw (q, connect_or_start_server) refl

-- A client that finds no server and can start one reaches it, if one of the ten attempts that follow
-- connects, whatever the server says of its
-- start.
pub connect_or_start_server-connects :
    (attempt : ℕ → Attempt) (startup : ServerStartup) (i : ℕ) (conn : ServerConnection)
    → (attempt 0 ≡ refused) ⊎ (attempt 0 ≡ no_answer)
    → i < 10
    → attempt (1 + i) ≡ connected conn
    → (c : ServerConnection) × (j : ℕ) × (j ≤ i)
      × (attempt (1 + j) ≡ connected c)
      × (connect_or_start_server (some startup) attempt ≡ some c)
unfolding start_and_connect connect_with_retry
connect_or_start_server-connects attempt startup i conn none_yet h e =
    let r = retry-Reached attempt 10 1 i conn h e in
    (
      r.reached,
      r.number,
      r.in_time,
      r.connects,
      after_refusal attempt (some startup) none_yet ∙ r.result,
    )
