-- ===== src/Ipc/Service/Settings.antt =====
-- The settings that a client sets are those that a client gets.
use rcu.Base.{
  ℕ, ◌≡◌, ◌<◌, refl, sym, ap, ◌∙◌, Bool, true, false, Option, none, some, if◌then◌else◌, lt→ltb,
}
use rcu.Config.Key
use rcu.Config.Values.{Values, accepted, fill}
use rcu.Config.Store.{Config}
use rcu.Config.Write.{commit, set_config_values}
use rcu.Ipc.Request.{success, generic, config_not_loaded, Hipc, Data}
use rcu.Ipc.Service.{
  State, Env, Reply, config_values, Answer, fail, saved, cmd_set_config_values,
  cmd_get_config_values, config_list_size, first_holds, set_config_values_handler, commands,
  service_handler_func,
}

abbrev pub command : ℕ → ℕ → Data
command cmd size = record { cmd_id = cmd; size = size }

-- What a successful `SetConfigValues` leaves.
abbrev Saves : {F : Type 0} → Values → State F → Type 0
Saves values t =
    (t.kip.config.loaded ≡ true)
    × ((k : ℕ) → k < Key.enum_max → t.kip.config.values k ≡ accepted k (values k))

fill-below : (f : ℕ → ℕ) (values : Values) (k : ℕ) → k < Key.enum_max → fill f values k ≡ f k
fill-below f values k lt = rw (lt→ltb k Key.enum_max lt) refl

module _ {F : Type 0} where
  if_loaded-success :
      (loaded : Bool) (s t : State F) (x : Answer F) (r : Option Reply)
      → (if loaded then x else fail config_not_loaded s) ≡ (success, (r, t))
      → (loaded ≡ true) × (x ≡ (success, (r, t)))
  if_loaded-success true s t x r h = (refl, h)
  if_loaded-success false s t x r h = absurd (cc (ap (λ (a : Answer F). a.0) h))

  saved-success :
      (o : Option F) (file : F) (c d : Config) (s t : State F) (r : Option Reply)
      → saved s (commit o file c d) ≡ (success, (r, t))
      → t.kip.config ≡ d
  saved-success none file c d s t r h = absurd (cc (ap (λ (a : Answer F). a.0) h))
  saved-success (some new) file c d s t r h = ap (λ (a : Answer F). a.1.1.kip.config) (sym h)

  handler-Saves :
      (env : Env F) (values : Values) (s t : State F) (r : Option Reply)
      → set_config_values_handler env values s ≡ (success, (r, t))
      → Saves values t
  unfolding set_config_values_handler set_config_values
  handler-Saves env values s t r h =
      let (loaded, was_saved) = if_loaded-success s.kip.config.loaded s t _ r h in
      let e = saved-success _ _ _ _ s t r was_saved in
      (
        ap (λ (c : Config). c.loaded) e ∙ loaded,
        λ k lt.
            ap (λ (c : Config). c.values k) e
            ∙ fill-below (λ j. accepted j (values j)) s.kip.config.values k lt,
      )

  set_command :
      (holds : Bool) (x : Answer F) (s t : State F) (out : Option Reply)
      → (if holds then x else fail generic s) ≡ (success, (out, t))
      → x ≡ (success, (out, t))
  set_command true x s t out h = h
  set_command false x s t out h = absurd (cc (ap (λ (a : Answer F). a.0) h))

  -- After a successful `SetConfigValues`, a `GetConfigValues` with a buffer for the list succeeds,
  -- changes nothing, and gives for a setting the value that was sent, or the default where the
  -- setting may not have that value.
  pub set_config_values-get :
      (env : Env F) (r q : Hipc) (m n k : ℕ) (s t : State F) (out : Option Reply)
      → service_handler_func env r (command cmd_set_config_values m) s ≡ (success, (out, t))
      → first_holds q.recv_buffers config_list_size ≡ true
      → k < Key.enum_max
      → (values : Values) × (service_handler_func env q (command cmd_get_config_values n) t
          ≡ (success, (some (config_values values), t)))
        × (values k ≡ accepted k (r.sent_values k))
  unfolding service_handler_func commands
  set_config_values-get env r q m n k s t out h holds lt =
      let (loaded, same) =
        handler-Saves env r.sent_values s t out
          (set_command (first_holds r.send_buffers config_list_size) _ s t out h) in
      (t.kip.config.values, rw (holds, loaded) refl, same k lt)
