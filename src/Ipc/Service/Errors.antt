-- ===== src/Ipc/Service/Errors.antt =====
-- A command that fails.
use rcu.Base.{
  ℕ, ◌≡◌, ◌⊎◌, inl, inr, refl, Bool, Option, none, some, List, [], ◌∷◌, All, if_then_else_ind,
}
use rcu.Config.Values.{Values}
use rcu.Config.Store.{Config}
use rcu.Config.Write.{commit, set_profiles, set_config_values}
use rcu.Ipc.Request.{success, generic, config_not_loaded, config_save_failed, Hipc, Data, Args}
use rcu.Ipc.Service.{
  State, Env, Reply, Answer, fail, if_loaded, saved, set_profiles_handler, set_override_handler,
  set_config_values_handler, get_freq_list_handler, first_case, commands, service_handler_func,
}

-- A success, or one of the three errors of the service with no data and the state as it was.
abbrev pub IsClean : {F : Type 0} → State F → Answer F → Type 0
IsClean s a =
    (a.0 ≡ success)
    ⊎ (((a.0 ≡ generic) ⊎ ((a.0 ≡ config_not_loaded) ⊎ (a.0 ≡ config_save_failed)))
        × (a.1.0 ≡ none)
        × (a.1.1 ≡ s))

module _ {F : Type 0} (s : State F) where
  done-IsClean : (r : Option Reply) (t : State F) → IsClean s (success, (r, t))
  done-IsClean r t = inl refl

  generic-IsClean : IsClean s (fail generic s)
  generic-IsClean = inr (inl refl, refl, refl)

  if_loaded-IsClean : (a : Answer F) → IsClean s a → IsClean s (if_loaded s a)
  if_loaded-IsClean a h =
      if_then_else_ind (IsClean s) s.kip.config.loaded a (fail config_not_loaded s) (λ e. h)
        (λ e. inr (inr (inl refl), refl, refl))

  saved-IsClean :
      (o : Option F) (d : Config) → IsClean s (saved s (commit o s.kip.ini_file s.kip.config d))
  saved-IsClean none d = inr (inr (inr refl), refl, refl)
  saved-IsClean (some new) d = inl refl

  set_profiles_handler-IsClean : (env : Env F) (a : Args) → IsClean s (set_profiles_handler env a s)
  unfolding set_profiles_handler set_profiles
  set_profiles_handler-IsClean env a = if_loaded-IsClean _ (saved-IsClean _ _)

  set_config_values_handler-IsClean :
      (env : Env F) (values : Values) → IsClean s (set_config_values_handler env values s)
  unfolding set_config_values_handler set_config_values
  set_config_values_handler-IsClean env values = if_loaded-IsClean _ (saved-IsClean _ _)

  set_override_handler-IsClean : (a : Args) → IsClean s (set_override_handler a s)
  unfolding set_override_handler
  set_override_handler-IsClean a =
      if_then_else_ind (IsClean s) _ _ _ (λ e. inl refl) (λ e. generic-IsClean)

  get_freq_list_handler-IsClean :
      (env : Env F) (a : Args) (size : ℕ) → IsClean s (get_freq_list_handler env a size s)
  unfolding get_freq_list_handler
  get_freq_list_handler-IsClean env a size =
      if_then_else_ind (IsClean s) _ _ _ (λ e. generic-IsClean) (λ e. inl refl)

  first_case-IsClean :
      (cases : List (Bool × Answer F)) (otherwise : Answer F)
      → All (λ c. IsClean s c.1) cases
      → IsClean s otherwise
      → IsClean s (first_case cases otherwise)
  first_case-IsClean [] otherwise h k = k
  first_case-IsClean ((met, answer) ∷ cases) otherwise (h, hs) k =
      if_then_else_ind (IsClean s) met answer (first_case cases otherwise) (λ e. h)
        (λ e. first_case-IsClean cases otherwise hs k)

  -- A command that does not succeed ends in one of the three errors of the service, gives no data, and
  -- changes nothing of the state: the configuration, both files, and both flags.
  pub service_handler_func-IsClean :
      (env : Env F) (r : Hipc) (d : Data) → IsClean s (service_handler_func env r d s)
  unfolding service_handler_func commands
  service_handler_func-IsClean env r d =
      first_case-IsClean (commands env r d s) (fail generic s)
        (
          inl refl,
          (
            inl refl,
            (
              inl refl,
              (
                inl refl,
                (
                  if_loaded-IsClean _ (inl refl),
                  (
                    if_loaded-IsClean _ (inl refl),
                    (
                      set_profiles_handler-IsClean env r.args,
                      (
                        inl refl,
                        (
                          set_override_handler-IsClean r.args,
                          (
                            if_loaded-IsClean _ (inl refl),
                            (
                              set_config_values_handler-IsClean env r.sent_values,
                              (get_freq_list_handler-IsClean env r.args _, (inl refl, tt)),
                            ),
                          ),
                        ),
                      ),
                    ),
                  ),
                ),
              ),
            ),
          ),
        )
        generic-IsClean
