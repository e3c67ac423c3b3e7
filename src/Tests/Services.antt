-- ===== src/Tests/Services.antt =====
-- The server and the commands of the service.
use rcu.Base.{ℕ, ◌+◌, ◌≡◌, refl, true, false, none, some, List, [], ◌∷◌, ◌++◌, arith, pos}
use rcu.Config.Store.{Line}
use rcu.Config.Values.{Values, accepted}
use rcu.Config.Write.{set_config_values}
use rcu.Kip.Data.{Kip}
use rcu.Ipc.Request.{success, request, Hipc}
use rcu.Ipc.Server.{Server, init, add_session, delete_session, process_new_session, Wake, process}
use rcu.Ipc.Server.Sessions.{open_handles, accept, leave, leaving, sessions_refine}
use rcu.Ipc.Server.Open.{IsFresh, IsOpen, registered, processed, Reached-IsOpen}
use rcu.Ipc.Service.{
  State, Env, config_values, cmd_get_config_values, cmd_set_config_values, cmd_set_override,
  set_config_values_handler, commands, service_handler_func,
}
use rcu.Ipc.Service.Errors.{IsClean, service_handler_func-IsClean}
use rcu.Ipc.Service.Settings.{command, set_config_values-get}
use rcu.Tests.Configs.{list_ini, blank}
use rcu.Tests.Manager.{clocks}

abbrev before : Server
before = record { handles = λ i. 0; max = 0; count = 0; closed = [] }

abbrev started : Server
started = (init 64 2 (success, 9) before).1

started_open : open_handles started ≡ 9 ∷ []
unfolding init
started_open = refl

abbrev busy : Server
busy = record { handles = λ i. 9 + i; max = 4; count = 3; closed = [] }

sessions_refine_example :
    (open_handles (add_session 20 busy).1 ≡ accept 4 20 (9 ∷ 10 ∷ 11 ∷ []))
    × (open_handles (delete_session 1 busy).1 ≡ leave 1 (9 ∷ 10 ∷ 11 ∷ []))
    × ((delete_session 1 busy).1.closed ≡ leaving 1 (9 ∷ 10 ∷ 11 ∷ []) ++ [])
sessions_refine_example = sessions_refine busy 20 1

abbrev kip : Kip (List Line)
kip = record {
  file = none;
  available = false;
  config = record blank { loaded = true };
  ini_file = [];
  cust_rev = 0;
  kip_version = 0;
  notes = [];
}

abbrev state : State (List Line)
state = record { kip = kip; enabled = false; running = true }

abbrev env : Env (List Line)
env = record {
  files = record { ini = list_ini; can_write = true };
  tables = λ m. 48000000 ∷ 96000000 ∷ [];
  context = clocks;
}

-- A request with a buffer for the settings each way, and a list of settings.
abbrev hipc : ℕ → Hipc
hipc cmd = record {
  kind = request;
  num_data_words = 6;
  has_header = true;
  magic_matches = true;
  cmd_id = cmd;
  args = record {
    tid = 7;
    mhz = λ p m. 0;
    enabled = 1;
    hoc_module = 5;
    hz = 1020000000;
    max_count = 0;
  };
  recv_buffers = 1080 ∷ [];
  send_buffers = 1080 ∷ [];
  sent_values = λ k. 1;
}

abbrev waking : Wake
waking = record {
  waited = success;
  index = pos 0;
  accepted = (success, 20);
  exchange = record { received = success; hipc = hipc 0; replied = success };
}

starts : init 64 2 (success, 9) before ≡ (success, started)
unfolding init
starts = refl

fresh : IsFresh 20 started
unfolding init
fresh i lt e = ground (arith, e)

abbrev served : Server
served = (process (service_handler_func env) waking state started).server

served_open : open_handles served ≡ 9 ∷ 20 ∷ []
unfolding process process_new_session add_session init
served_open = refl

Reached-IsOpen_example : IsOpen 2 9 served
Reached-IsOpen_example =
    Reached-IsOpen (service_handler_func env) 64 2 9 _ served
      (processed state started waking (registered state before started refl starts) fresh)

service_handler_func-IsClean_example :
    IsClean state
      (service_handler_func env (hipc cmd_set_override) (command cmd_set_override 8) state)
service_handler_func-IsClean_example =
    service_handler_func-IsClean state env (hipc cmd_set_override) (command cmd_set_override 8)

abbrev after : State (List Line)
after =
    (service_handler_func env (hipc cmd_set_config_values) (command cmd_set_config_values 0)
      state).1.1

sets :
    service_handler_func env (hipc cmd_set_config_values) (command cmd_set_config_values 0) state
    ≡ (success, (none, after))
unfolding service_handler_func commands set_config_values_handler set_config_values
sets = refl

set_config_values-get_example :
    (values : Values) × (service_handler_func env
        (hipc cmd_get_config_values)
        (command cmd_get_config_values 0)
        after
      ≡ (success, (some (config_values values), after)))
    × (values 3 ≡ accepted 3 1)
set_config_values-get_example =
    set_config_values-get env (hipc cmd_set_config_values) (hipc cmd_get_config_values) 0 0 3 state
      after none sets refl (omega arith)
