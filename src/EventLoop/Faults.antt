-- ===== src/EventLoop/Faults.antt =====
-- How the event loop (src/lib/event-loop.cpp) drops a failing handler, and what it leaves behind.
use Prim.Native.Nat.{bit_and}
use nanodistro.Base.{
  subst, ℕ, zero, suc, ◌+◌, ◌%◌, ◌^◌, ◌≤◌, Bool, true, false, List, [], ◌∷◌, Option, none, some,
  ◌≡◌, refl, ap, ◌∙◌, arith, ◌==◌, leb, Bool-cases, inl, inr, if◌then◌else◌,
}
use nanodistro.EventLoop.{
  Loop, Env, FdContext, type_events, type_remove, CtlOp, ctl_del, poll_remove_fd, Outcome, returned,
  errno_thrown, other_thrown, use_after_free, put_data, member, erase, update, call_handler,
  epoll_control, ctl_result, poll_remove, poll_remove_fd, shrink_context, uninstall, remove_handler,
  remove_wanted, count_error, after_call, process_one_event, process_event, process_context,
  process_handlers, free_job_id,
}
use nanodistro.EventLoop.Registry.{IsReliable}
use nanodistro.EventLoop.Handlers.{IsQuiet, resume-rule, if_rule}

module _ {W : Type 0} (env : Env W) (on : ℕ → Bool) where
  -- The table of the registered handlers is this one.
  abbrev Holds : Loop W → Type 0
  Holds l = l.handlers ≡ on

  ctl_result-Holds :
      (forgive : Bool) (r : Option ℕ) (l : Loop W) → Holds l → Holds (ctl_result forgive r l).1
  ctl_result-Holds forgive none l h = h
  ctl_result-Holds true (some e) l h =
      if_rule {A = Outcome (Unit {0}) × Loop W} (λ r. Holds r.1) (e == 9) (returned tt, l)
        (errno_thrown e, l) h h
  ctl_result-Holds false (some e) l h = h

  epoll_control-Holds :
      (forgive : Bool) (op : CtlOp) (fd evs : ℕ) (l : Loop W)
      → Holds l
      → Holds (epoll_control env forgive op fd evs l).1
  unfolding epoll_control
  epoll_control-Holds forgive op fd evs l h =
      ctl_result-Holds forgive (env.epoll_ctl l.world op fd evs).1 _ h

  shrink_context-Holds :
      (fd : ℕ) (c : FdContext) (rest : List ℕ) (l : Loop W)
      → Holds l
      → Holds (shrink_context env fd c rest l).1
  unfolding shrink_context
  shrink_context-Holds fd c [] l h =
      resume-rule Holds _ _ (epoll_control-Holds true _ fd c.armed _ h) (λ u k p. p)
  shrink_context-Holds fd c (x ∷ xs) l h =
      if_rule {A = Outcome (Unit {0}) × Loop W} (λ r. Holds r.1) _ _ _ h
        (epoll_control-Holds false _ fd _ _ h)

  uninstall-Holds : (id : ℕ) (l : Loop W) → Holds l → Holds (uninstall env id l).1
  unfolding uninstall poll_remove_fd call_handler
  uninstall-Holds id l h =
      resume-rule Holds (call_handler env id type_remove 0 l) (λ u. poll_remove_fd env id) h
        (λ u k p. go id (k.fd_handlers (k.heap id).fd) k p)
    where
      go : (id : ℕ) (o : Option FdContext) (k : Loop W) → Holds k → Holds (poll_remove env id o k).1
      go id none k p = p
      go id (some c) k p =
          if_rule {A = Outcome (Unit {0}) × Loop W} (λ r. Holds r.1) (member id c.ids)
            (shrink_context env (k.heap id).fd c (erase id c.ids) k) (other_thrown, k)
            (shrink_context-Holds (k.heap id).fd c (erase id c.ids) k p) p

then_branch :
    {A : Type 0} (P : A → Type 0) (b : Bool) (x y : A) → b ≡ true → P x → P (if b then x else y)
then_branch P true x y e p = p
then_branch P false x y e p = absurd (ground (arith, e))

module _ {W : Type 0} (env : Env W) where
  remove_handler-off : (id : ℕ) (l : Loop W) → (remove_handler env id l).1.handlers id ≡ false
  unfolding remove_handler
  remove_handler-off id l = elim (Bool-cases (l.handlers id)) [
    | inr off ↦ rw off off
    | inl on ↦
        let self : (id == id) ≡ true = ground arith in
        rw on (
          ap (λ (t : ℕ → Bool). t id)
            (uninstall-Holds env (update l.handlers id false) id
              (record l { handlers = update l.handlers id false }) refl)
          ∙ rw self refl)
  ]

  remove_wanted-off :
      (id : ℕ) (l : Loop W)
      → (l.heap id).want_remove ≡ true
      → (remove_wanted env id l).handlers id ≡ false
  unfolding remove_wanted
  remove_wanted-off id l wants =
      then_branch (λ k. k.handlers id ≡ false) (l.heap id).want_remove (remove_handler env id l).1 l
        wants (remove_handler-off id l)

  count_error-fatal :
      (id : ℕ) (l : Loop W)
      → (l.heap id).max_error ≤ ((l.heap id).error + 1) % 2 ^ 32
      → ((count_error env id l).heap id).want_remove ≡ true
  unfolding count_error
  count_error-fatal id l many =
      let self : (id == id) ≡ true = ground arith in
      let fatal : leb (l.heap id).max_error (((l.heap id).error + 1) % 2 ^ 32) ≡ true =
        ground arith in
      rw fatal (rw self refl)

  -- A handler that throws on an event, by anything but an `ErrnoErrorImpl`, and whose error count
  -- thereby reaches `max_error`, is not registered afterwards, whatever `epoll_ctl` and its other
  -- calls do.
  pub process_one_event-removes :
      (id evs : ℕ) (l : Loop W)
      → (env.handle l.world id type_events evs).2 ≡ other_thrown
      → (l.heap id).max_error ≤ ((l.heap id).error + 1) % 2 ^ 32
      → (process_one_event env id evs l).handlers id ≡ false
  unfolding process_one_event after_call call_handler
  process_one_event-removes id evs l fails many =
      let self : (id == id) ≡ true = ground arith in
      let l1 : Loop W =
        (call_handler env id type_events evs (
          put_data id (record (l.heap id) { event_total = ((l.heap id).event_total + 1) % 2 ^ 32 })
            l)).1 in
      let many' : (l1.heap id).max_error ≤ ((l1.heap id).error + 1) % 2 ^ 32 = rw self many in
      rw fails (remove_wanted-off id (count_error env id l1) (count_error-fatal id l1 many'))

-- The context of the descriptor of a handler is freed.
abbrev Freed : {W : Type 0} → ℕ → Loop W → Type 0
Freed fd l = l.fd_handlers fd ≡ none

-- A registered handler is the only one on its descriptor.
abbrev pub IsAlone : {W : Type 0} → ℕ → ℕ → ℕ → Loop W → Type 0
IsAlone id fd armed l =
    (l.handlers id ≡ true)
    × ((l.heap id).fd ≡ fd)
    × (l.fd_handlers fd ≡ some (record { armed = armed; ids = id ∷ [] }))

module _ {W : Type 0} (env : Env W) (rel : IsReliable env) (quiet : IsQuiet env) where
  shrink_context-Freed :
      (fd : ℕ) (c : FdContext) (l : Loop W) → Freed fd (shrink_context env fd c [] l).1
  unfolding shrink_context epoll_control
  shrink_context-Freed fd c l =
      let self : (fd == fd) ≡ true = ground arith in
      rw (rel l.world ctl_del fd c.armed) (rw self refl)

  poll_remove-Freed :
      (id armed : ℕ) (l : Loop W)
      → Freed
          (l.heap id).fd
          (poll_remove env id (some (record { armed = armed; ids = id ∷ [] })) l).1
  unfolding poll_remove
  poll_remove-Freed id armed l =
      let self : (id == id) ≡ true = ground arith in
      rw self (shrink_context-Freed (l.heap id).fd (record { armed = armed; ids = id ∷ [] }) l)

  poll_remove_fd-Freed :
      (id fd armed : ℕ) (l : Loop W)
      → (l.heap id).fd ≡ fd
      → l.fd_handlers fd ≡ some (record { armed = armed; ids = id ∷ [] })
      → Freed fd (poll_remove_fd env id l).1
  unfolding poll_remove_fd
  poll_remove_fd-Freed id fd armed l place at =
      let at' : l.fd_handlers (l.heap id).fd ≡ some (record { armed = armed; ids = id ∷ [] }) =
        ap (λ (t : ℕ). l.fd_handlers t) place ∙ at in
      subst (λ (t : ℕ). Freed t (poll_remove env id (l.fd_handlers (l.heap id).fd) l).1) place
        (rw at' (poll_remove-Freed id armed l))

  remove_handler-Freed :
      (id fd armed : ℕ) (l : Loop W) → IsAlone id fd armed l → Freed fd (remove_handler env id l).1
  unfolding remove_handler uninstall call_handler
  remove_handler-Freed id fd armed l (on, place, at) =
      let self : (id == id) ≡ true = ground arith in
      let k : Loop W =
        (call_handler env id type_remove 0
          (record l { handlers = update l.handlers id false })).1 in
      let place' : (k.heap id).fd ≡ fd = rw self place in
      rw (on, quiet l.world id 0) (poll_remove_fd-Freed id fd armed k place' at)

  remove_wanted-Freed :
      (id fd armed : ℕ) (l : Loop W)
      → IsAlone id fd armed l
      → (l.heap id).want_remove ≡ true
      → Freed fd (remove_wanted env id l)
  unfolding remove_wanted
  remove_wanted-Freed id fd armed l alone wants =
      then_branch (Freed fd) (l.heap id).want_remove (remove_handler env id l).1 l wants
        (remove_handler-Freed id fd armed l alone)

  -- The context of a descriptor with one registered handler is freed while one of the events of the
  -- handler is processed, where the handler throws on the event, by anything but an `ErrnoErrorImpl`, and its error count
  -- thereby reaches `max_error`: the loop over the handlers of the context then reads the freed
  -- context. `epoll_ctl` does not fail, and no handler throws when it is removed.
  pub process_event-freed :
      (fd evs id armed : ℕ) (l : Loop W)
      → IsAlone id fd armed l
      → ((bit_and (l.heap id).events evs) == 0) ≡ false
      → (env.handle l.world id type_events evs).2 ≡ other_thrown
      → (l.heap id).max_error ≤ ((l.heap id).error + 1) % 2 ^ 32
      → (process_event env fd evs l).0 ≡ use_after_free
  unfolding process_event process_context process_handlers process_one_event after_call call_handler
      count_error
  process_event-freed fd evs id armed l alone wanted fails many =
      let self : (id == id) ≡ true = ground arith in
      let fatal : leb (l.heap id).max_error (((l.heap id).error + 1) % 2 ^ 32) ≡ true =
        ground arith in
      let l1 : Loop W =
        (call_handler env id type_events evs (
          put_data id (record (l.heap id) { event_total = ((l.heap id).event_total + 1) % 2 ^ 32 })
            l)).1 in
      let alone' : IsAlone id fd armed (count_error env id l1) =
        rw self (rw fatal (rw self alone)) in
      let many' : (l1.heap id).max_error ≤ ((l1.heap id).error + 1) % 2 ^ 32 = rw self many in
      let gone : Freed fd (remove_wanted env id (count_error env id l1)) =
        remove_wanted-Freed id fd armed (count_error env id l1) alone'
          (count_error-fatal env id l1 many') in
      rw (alone.2, wanted, fails) (rw gone refl)

-- Where one of the next `fuel + 1` identifiers has no job, a job gets an identifier without one.
pub free_job_id-free :
    (jobs : ℕ → Bool) (id k fuel : ℕ)
    → k ≤ fuel
    → jobs ((id + k + 1) % 2 ^ 64) ≡ false
    → jobs (free_job_id jobs id fuel) ≡ false
unfolding free_job_id
free_job_id-free jobs id k zero h f =
    let e : (id + 1) % 2 ^ 64 ≡ (id + k + 1) % 2 ^ 64 = omega arith in ap (λ (t : ℕ). jobs t) e ∙ f
free_job_id-free jobs id zero (suc fuel) h f =
    let e : (id + 1) % 2 ^ 64 ≡ (id + 0 + 1) % 2 ^ 64 = omega arith in
    let g : jobs ((id + 1) % 2 ^ 64) ≡ false = ap (λ (t : ℕ). jobs t) e ∙ f in rw (g, free_job_id) g
free_job_id-free jobs id (suc k) (suc fuel) h f = elim (Bool-cases (jobs ((id + 1) % 2 ^ 64))) [
  | inr off ↦ rw (off, free_job_id) off
  | inl on ↦
      let e : ((id + 1) % 2 ^ 64 + k + 1) % 2 ^ 64 ≡ (id + suc k + 1) % 2 ^ 64 = omega arith in
      rw (on, free_job_id)
        (free_job_id-free jobs ((id + 1) % 2 ^ 64) k fuel (omega arith)
          (ap (λ (t : ℕ). jobs t) e ∙ f))
]
