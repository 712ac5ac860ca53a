-- ===== src/Websocket/Session.antt =====
-- backend.go, `Proxy`: the two pumps of a connection run at once, as a step relation. The first one that
-- ends makes `Proxy` close both connections; until its own reading or writing fails the other goes on.
use bsc_builder_proxyd.Base.{◌≡◌, Bool, true, false, ◌&&◌}
use bsc_builder_proxyd.StringSet.{StringSet}
use bsc_builder_proxyd.Websocket.{Incoming, Wires, client_turn, backend_turn}

pub record Session (W : Type 0) : Type 0 where
  pub conns : W
  pub client_runs : Bool
  pub backend_runs : Bool
  pub is_closed : Bool

module _ {W : Type 0} (wires : Wires W) (whitelist : StringSet) where
  abbrev pub after_client : Session W → Incoming → Session W
  after_client s x =
      let (w, alive) = client_turn wires whitelist s.conns x in
      record s { conns = w; client_runs = alive }

  abbrev pub after_backend : Session W → Incoming → Session W
  after_backend s x =
      let (w, alive) = backend_turn wires whitelist s.conns x in
      record s { conns = w; backend_runs = alive }

  pub data PumpStep : Session W → Session W → Type 0 where
    from_client :
        {s : Session W} (x : Incoming) → s.client_runs ≡ true → PumpStep s (after_client s x)
    from_backend :
        {s : Session W} (x : Incoming) → s.backend_runs ≡ true → PumpStep s (after_backend s x)
    close :
        {s : Session W}
        → (s.client_runs && s.backend_runs) ≡ false
        → s.is_closed ≡ false
        → PumpStep s (record s { is_closed = true })

  unfoldable pub proxy_start : W → Session W
  proxy_start w = record { conns = w; client_runs = true; backend_runs = true; is_closed = false }

  -- The states of a connection that is proxied from here on.
  pub data Proxied (w : W) : Session W → Type 0 where
    proxy : Proxied w (proxy_start w)
    then_turn : {s t : Session W} → Proxied w s → PumpStep s t → Proxied w t
