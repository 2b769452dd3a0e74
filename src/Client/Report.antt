-- ===== src/Client/Report.antt =====
-- The statistics that the client of src/commands.rs is told are those of the server of
-- src/server.rs.
use sccache.Prelude.{
  ◌++◌, ◌≡◌, ap, ◌∙◌, Option, none, some, Option-cases, inl, inr, true, length, ◌>>=◌, sym,
}
use sccache.Protocol.Request.{
  new_request, set_get_stats, set_zero_stats, set_shutdown, has_compile, has_get_stats,
  has_zero_stats, has_shutdown,
}
use sccache.Protocol.Statistic.{CacheStats}
use sccache.Protocol.Response.{
  ServerResponse, set_stats, has_stats, take_stats, set_shutting_down, has_shutting_down,
  take_shutting_down, set_final_stats, take_final_stats,
}
use sccache.Server.Service.{
  Service, call, get_stats, zero_stats, shutdown_response, respond_stats, responds, shuts_down,
  panics,
}
use sccache.Client.Wire.{Bytes, Wire, WireLaws}
use sccache.Client.Connection.{ServerConnection, request-encoded}
use sccache.Client.Stats.{
  request_stats, request_zero_stats, request_shutdown, stats_response, shutdown_stats,
}

responds_inj : {m n : ServerResponse} → responds m ≡ responds n → m ≡ n
responds_inj h = cc

panicked : {m : ServerResponse} → panics ≡ responds m → ⊥
panicked h = cc

-- What a response with statistics tells.
respond_stats-told :
    (o : Option CacheStats) (m : ServerResponse)
    → respond_stats o ≡ responds m
    → stats_response (some m) ≡ o
unfolding respond_stats stats_response set_stats has_stats take_stats
respond_stats-told none m h = absurd (panicked h)
respond_stats-told (some stats) m h = ap (λ x. stats_response (some x)) (sym (responds_inj h))

no_response : {m : ServerResponse} → ◌≡◌ {A = Option ServerResponse} none (some m) → ⊥
no_response h = cc

same_response : {m n : ServerResponse} → some m ≡ some n → m ≡ n
same_response h = cc

shutdown_response-told :
    (s : Service) (m : ServerResponse)
    → shutdown_response s ≡ some m
    → shutdown_stats (some m) ≡ get_stats s
unfolding shutdown_response shutdown_stats set_shutting_down has_shutting_down take_shutting_down
    set_final_stats take_final_stats
shutdown_response-told s m h = elim (Option-cases (get_stats s)) [
  | inl panic ↦ absurd (no_response (rw (panic, ◌>>=◌) at h))
  | inr (stats, q) ↦
      ap (λ x. shutdown_stats (some x)) (sym (same_response (rw (q, ◌>>=◌) at h))) ∙ sym q
]

module _ (wire : Wire) (laws : WireLaws wire) where
  -- The client is told the server's statistics: for `--show-stats` those of now, for `--zero-stats`
  -- those of the zeroed server, for `--stop-server` those of the server when it has sent itself the
  -- shutdown message, if the server's response is on the wire and it does not panic.
  pub request_stats-call :
      (conn : ServerConnection) (s : Service) (m : ServerResponse) (sent rest : Bytes)
      → laws.Ready m
      → conn.writable ≡ true
      → conn.reader ≡ laws.prefix (length (laws.body m)) ++ (laws.body m ++ rest)
      → ((call s (set_get_stats new_request)).handled ≡ responds m
          → wire.write_request (set_get_stats new_request) ≡ some sent
          → request_stats wire conn ≡ get_stats s)
        × ((call s (set_zero_stats new_request)).handled ≡ responds m
            → wire.write_request (set_zero_stats new_request) ≡ some sent
            → request_zero_stats wire conn
              ≡ get_stats (call s (set_zero_stats new_request)).service)
        × ((call s (set_shutdown new_request)).handled ≡ shuts_down
            → shutdown_response s ≡ some m
            → wire.write_request (set_shutdown new_request) ≡ some sent
            → request_shutdown wire conn ≡ get_stats s)
  unfolding request_stats request_zero_stats request_shutdown call set_get_stats set_zero_stats
      set_shutdown has_compile has_get_stats has_zero_stats has_shutdown zero_stats
  request_stats-call conn s m sent rest ready takes h = (
    λ a w.
        ap (λ r. stats_response r.1) (request-encoded wire laws conn _ sent m rest ready takes w h)
        ∙ respond_stats-told (get_stats s) m a,
    λ a w.
        ap (λ r. stats_response r.1) (request-encoded wire laws conn _ sent m rest ready takes w h)
        ∙ respond_stats-told _ m a,
    λ a e w.
        ap (λ r. shutdown_stats r.1) (request-encoded wire laws conn _ sent m rest ready takes w h)
        ∙ shutdown_response-told s m e,
  )
