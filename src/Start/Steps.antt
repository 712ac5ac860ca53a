-- ===== src/Start/Steps.antt =====
-- proxyd.go: the steps that a start which succeeds has made.
use bsc_builder_proxyd.Base.{true, ◌≡◌, ◌||◌, not, List, String, ◌==◌, is_some}
use bsc_builder_proxyd.Backend.{Backend}
use bsc_builder_proxyd.Config.{Config}
use bsc_builder_proxyd.Start.{
  ok, guard, ws_port_alone, Env, check_config, check_sender_limit, >>=-eq-ok, guard-eq-ok, ok_inj,
}
use bsc_builder_proxyd.Start.Backends.{make_backends}
use bsc_builder_proxyd.Start.Groups.{make_groups, find_ws_group, check_mappings}
use bsc_builder_proxyd.Start.Pollers.{start_groups}
use bsc_builder_proxyd.Start.Run.{
  start, Started, Regroup, serve, lay_out, connect, Topology, Clients,
}

-- The states that the steps hand on.
pub record Steps (env : Env) (range : Regroup) (cfg : Config) (s : Started) : Type 0 where
  pub clients : Clients
  pub connected : connect env cfg ≡ ok clients
  pub topology : Topology
  pub laid_out : lay_out env cfg ≡ ok topology
  pub served : serve env cfg clients topology ≡ ok s.server
  pub polled : start_groups env cfg.backend_groups (range topology.groups) ≡ ok s.pollers
  pub listens : s.serves_ws ≡ not (cfg.server.ws_port == 0)

pub start-Steps :
    (env : Env) (range : Regroup) (cfg : Config) (s : Started)
    → start env range cfg ≡ ok s
    → Steps env range cfg s
unfolding start
start-Steps env range cfg s h =
    let (u, a, h1) = >>=-eq-ok (check_config cfg) _ h in
    let (clients, b, h2) = >>=-eq-ok (connect env cfg) _ h1 in
    let (v, c, h3) = >>=-eq-ok (check_sender_limit cfg.sender_rate_limit) _ h2 in
    let (t, d, h4) = >>=-eq-ok (lay_out env cfg) _ h3 in
    let (server, e, h5) = >>=-eq-ok (serve env cfg clients t) _ h4 in
    let (pollers, f, h6) = >>=-eq-ok (start_groups env cfg.backend_groups (range t.groups)) _ h5 in
    let same = ok_inj h6 in
    record {
      clients = clients;
      connected = b;
      topology = t;
      laid_out = d;
      served = cc (e, same);
      polled = cc (f, same);
      listens = cc same;
    }

pub record Layout (env : Env) (cfg : Config) (t : Topology) : Type 0 where
  pub backends : List (String × Backend)
  pub made_backends : make_backends env cfg.backend_options 0 cfg.backends ≡ ok backends
  pub made_groups : make_groups backends cfg.backend_groups ≡ ok t.groups
  pub found_ws_group : find_ws_group t.groups cfg.ws_backend_group ≡ ok t.ws_group
  pub ws_grouped : (is_some t.ws_group || cfg.server.ws_port == 0) ≡ true
  pub mapped : check_mappings t.groups cfg.rpc_method_mappings ≡ ok tt

pub lay_out-Layout :
    (env : Env) (cfg : Config) (t : Topology) → lay_out env cfg ≡ ok t → Layout env cfg t
unfolding lay_out
lay_out-Layout env cfg t h =
    let (bs, a, h1) = >>=-eq-ok (make_backends env cfg.backend_options 0 cfg.backends) _ h in
    let (gs, b, h2) = >>=-eq-ok (make_groups bs cfg.backend_groups) _ h1 in
    let (ws, c, h3) = >>=-eq-ok (find_ws_group gs cfg.ws_backend_group) _ h2 in
    let (u, d, h4) = >>=-eq-ok (guard (is_some ws || cfg.server.ws_port == 0) ws_port_alone) _ h3 in
    let (v, e, h5) = >>=-eq-ok (check_mappings gs cfg.rpc_method_mappings) _ h4 in
    let same = ok_inj h5 in
    record {
      backends = bs;
      made_backends = a;
      made_groups = cc (b, same);
      found_ws_group = cc (c, same);
      ws_grouped = cc (guard-eq-ok _ ws_port_alone u d, same);
      mapped = cc (e, same);
    }
