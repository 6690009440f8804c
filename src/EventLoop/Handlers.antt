-- ===== src/EventLoop/Handlers.antt =====
-- The operations of the event loop (src/lib/event-loop.cpp) keep its two tables in step.
use Prim.Native.Nat.{bit_or, bit_or-bitwise, bit_and}
use nanodistro.Base.{
  ◌≢◌, ℕ, ◌+◌, ◌%◌, ◌^◌, Bool, true, false, List, [], ◌∷◌, ◌++◌, Option, none, some, ◌≡◌, refl, sym,
  ap, ◌∙◌, arith, ◌==◌, ==_iff, leb, Bool-cases, inl, inr, if◌then◌else◌, subst,
}
use nanodistro.EventLoop.{
  Loop, Env, HandlerData, FdContext, CallbackType, type_remove, type_init, type_events, type_error,
  type_fatal, Outcome, returned, errno_thrown, other_thrown, use_after_free, put_data, put_context,
  member, erase, union, update, call_handler, epoll_control, CtlOp, ctl_add, ctl_mod, ctl_del,
  poll_add, poll_remove, poll_add_fd, shrink_context, poll_remove_fd, install, uninstall,
  add_handler, remove_handler, remove_wanted, count_error, after_call, process_one_event,
  process_handlers, process_event, process_events, after_one, process_context, resume, eagain,
}
use nanodistro.EventLoop.Registry.{
  IsConsistent, IsValid, IsReliable, IsConsistent-same, IsConsistent-added, IsConsistent-removed,
  ids_of, shrunk, Contexts,
}

-- No handler throws when it is told that it is removed.
abbrev pub IsQuiet : {W : Type 0} → Env W → Type 0
IsQuiet {W} env = (w : W) (id evs : ℕ) → (env.handle w id type_remove evs).2 ≡ returned tt

update-update :
    (f : Contexts) (k : ℕ) (a b : Option FdContext) → update (update f k a) k b ≡ update f k b
update-update f k a b = λ i q. at q i
  where
    at : (q : ℕ) → update (update f k a) k b q ≡ update f k b q
    at q = elim (Bool-cases (q == k)) [ inl z ↦ rw z | inr z ↦ rw z ]

pub resume-rule :
    {W A B : Type 0} (P : Loop W → Type 0) (r : Outcome A × Loop W)
    (f : A → Loop W → Outcome B × Loop W)
    → P r.1
    → ((a : A) (k : Loop W) → P k → P (f a k).1)
    → P (resume r f).1
resume-rule P (returned a, l) f p h = h a l p
resume-rule P (errno_thrown e, l) f p h = p
resume-rule P (other_thrown, l) f p h = p
resume-rule P (use_after_free, l) f p h = p

pub if_rule {ℓ} :
    {A : Type 0} (P : A → Type ℓ) (b : Bool) (x y : A) → P x → P y → P (if b then x else y)
if_rule P true x y p q = p
if_rule P false x y p q = q

module _ {W : Type 0} (env : Env W) where
  pub call_handler-IsValid :
      (id : ℕ) (type : CallbackType) (evs : ℕ) (l : Loop W)
      → IsValid l
      → IsValid (call_handler env id type evs l).1
  unfolding call_handler
  call_handler-IsValid id type evs l v = IsConsistent-same id _ v refl refl

  module _ (rel : IsReliable env) where
    epoll_control-ok :
        (forgive : Bool) (op : CtlOp) (fd evs : ℕ) (l : Loop W)
        → epoll_control env forgive op fd evs l
          ≡ (returned tt, record l { world = (env.epoll_ctl l.world op fd evs).0 })
    unfolding epoll_control
    epoll_control-ok forgive op fd evs l = rw (rel l.world op fd evs)

    armed_with : Option FdContext → ℕ → ℕ
    armed_with none evs = evs
    armed_with (some c) evs = bit_or c.armed evs

    -- The tables after `poll_add`; the world is that after the calls of `epoll_ctl`.
    poll_add-tables :
        (id : ℕ) (o : Option FdContext) (l : Loop W)
        → (w : W) × (poll_add env id o l ≡ (
          returned tt,
          record l {
            world = w;
            fd_handlers = update l.fd_handlers (l.heap id).fd (
                some
                  (record { armed = armed_with o (l.heap id).events; ids = ids_of o ++ id ∷ [] }));
          },
        ))
    unfolding poll_add armed_with
    poll_add-tables id none l = (
      (env.epoll_ctl l.world ctl_add (l.heap id).fd (l.heap id).events).0,
      rw (epoll_control-ok false ctl_add (l.heap id).fd (l.heap id).events l),
    )
    poll_add-tables id (some c) l =
        let fd : ℕ = (l.heap id).fd in
        let evs : ℕ = bit_or c.armed (l.heap id).events in
        elim (Bool-cases (evs == c.armed)) [
          | inl z ↦ (
            l.world,
            rw z (
                ap
                  (λ (t : ℕ). (
                    returned tt,
                    record l {
                      fd_handlers =
                          update l.fd_handlers fd
                            (some (record { armed = t; ids = c.ids ++ id ∷ [] }));
                    },
                  ))
                  (sym ((==_iff evs c.armed).0 z))),
          )
          | inr z ↦ (
            (env.epoll_ctl l.world ctl_mod fd evs).0,
            rw z (
                rw
                  (epoll_control-ok false ctl_mod fd evs
                    (put_context fd (some (record c { armed = evs })) l))
                  (ap
                    (λ (t : Contexts). (
                      returned tt,
                      record l {
                        world = (env.epoll_ctl l.world ctl_mod fd evs).0;
                        fd_handlers = t;
                      },
                    ))
                    (update-update l.fd_handlers fd (some (record c { armed = evs }))
                      (some (record { armed = evs; ids = c.ids ++ id ∷ [] }))))),
          )
        ]

    shrink_context-tables :
        (fd : ℕ) (c : FdContext) (rest : List ℕ) (l : Loop W)
        → (w : W) × (shrink_context env fd c rest l ≡ (
          returned tt,
          record l { world = w; fd_handlers = update l.fd_handlers fd (shrunk l.heap rest) },
        ))
    unfolding shrink_context
    shrink_context-tables fd c [] l =
        let w : W = (env.epoll_ctl l.world ctl_del fd c.armed).0 in
        (
          w,
          rw
              (epoll_control-ok true ctl_del fd c.armed
                (put_context fd (some (record c { ids = [] })) l))
              (ap (λ (t : Contexts). (returned tt, record l { world = w; fd_handlers = t }))
                (update-update l.fd_handlers fd (some (record c { ids = [] })) none)),
        )
    shrink_context-tables fd c (x ∷ xs) l =
        let evs : ℕ = union l.heap 0 (x ∷ xs) in
        elim (Bool-cases (evs == c.armed)) [
          | inl z ↦ (
            l.world,
            rw z (
                ap
                  (λ (t : ℕ). (
                    returned tt,
                    record l {
                      fd_handlers =
                          update l.fd_handlers fd (some (record { armed = t; ids = x ∷ xs }));
                    },
                  ))
                  (sym ((==_iff evs c.armed).0 z))),
          )
          | inr z ↦ (
            (env.epoll_ctl l.world ctl_mod fd evs).0,
            rw z (
                epoll_control-ok false ctl_mod fd evs
                  (put_context fd (some (record { armed = evs; ids = x ∷ xs })) l)),
          )
        ]

    -- A registered handler has a context that lists it.
    poll_remove_fd-IsValid :
        (id : ℕ) (l : Loop W) (handlers : ℕ → Bool)
        → IsConsistent l.heap handlers l.fd_handlers
        → handlers id ≡ true
        → l.handlers ≡ update handlers id false
        → IsValid (poll_remove_fd env id l).1
          × ((poll_remove_fd env id l).0 ≡ returned tt)
          × ((poll_remove_fd env id l).1.handlers ≡ l.handlers)
    unfolding poll_remove_fd poll_remove
    poll_remove_fd-IsValid id l handlers v on off = go (l.fd_handlers (l.heap id).fd) refl
      where
        go :
            (o : Option FdContext)
            → l.fd_handlers (l.heap id).fd ≡ o
            → IsValid (poll_remove env id o l).1
              × ((poll_remove env id o l).0 ≡ returned tt)
              × ((poll_remove env id o l).1.handlers ≡ l.handlers)
        go none at =
            absurd
              (ground (arith, v.linked id, ap (λ (t : Option FdContext). member id (ids_of t)) at))
        go (some c) at =
            let inside : member id c.ids ≡ true =
              ground (arith, v.linked id, ap (λ (t : Option FdContext). member id (ids_of t)) at) in
            let (w, e) = shrink_context-tables (l.heap id).fd c (erase id c.ids) l in
            rw (inside, e)
              (
                subst
                    (λ t.
                      IsConsistent l.heap t
                        (update l.fd_handlers (l.heap id).fd (shrunk l.heap (erase id c.ids))))
                    (sym off) (IsConsistent-removed v id c at),
                refl,
                refl,
              )

    armed_with-union :
        {heap : ℕ → HandlerData} {handlers : ℕ → Bool} {fds : Contexts} (fd evs : ℕ)
        (o : Option FdContext)
        → IsConsistent heap handlers fds
        → fds fd ≡ o
        → armed_with o evs ≡ bit_or (union heap 0 (ids_of o)) evs
    unfolding armed_with
    armed_with-union fd evs none v at = sym (bit_or-bitwise 0 evs)
    armed_with-union fd evs (some c) v at = ap (λ (t : ℕ). bit_or t evs) (v.contexts fd c at).covers

    install-IsValid :
        (id : ℕ) (h : HandlerData) (l : Loop W)
        → IsValid l
        → l.handlers id ≡ false
        → IsValid
            (install env id (put_data id h (record l { handlers = update l.handlers id true }))).1
          × ((install env id
                  (put_data id h (record l { handlers = update l.handlers id true }))).1.handlers
                id
              ≡ true)
    unfolding install poll_add_fd call_handler
    install-IsValid id h l v free =
        let self : (id == id) ≡ true = ground arith in
        let o : Option FdContext = l.fd_handlers h.fd in
        let (w, e) =
          poll_add-tables id o
            (put_data id h (record l { handlers = update l.handlers id true })) in
        let grown : IsConsistent (update l.heap id h) (update l.handlers id true) (
            update l.fd_handlers h.fd
              (some (record { armed = armed_with o h.events; ids = ids_of o ++ id ∷ [] }))) =
          subst
            (λ t.
              IsConsistent (update l.heap id h) (update l.handlers id true) (
                update l.fd_handlers h.fd (some (record { armed = t; ids = ids_of o ++ id ∷ [] }))))
            (sym (armed_with-union h.fd h.events o v refl))
            (IsConsistent-added v id h o free refl) in
        let l2 : Loop W = record l {
          world = w;
          heap = update l.heap id h;
          handlers = update l.handlers id true;
          fd_handlers = update l.fd_handlers (update l.heap id h id).fd (
              some (record {
                armed = armed_with o (update l.heap id h id).events;
                ids = ids_of o ++ id ∷ [];
              }));
        } in
        let grown' : IsValid l2 = rw self grown in
        rw self (
          rw e (
            resume-rule (λ k. IsValid k × (k.handlers id ≡ true))
              (call_handler env id type_init 0 l2) (λ u k. (returned id, k))
              (call_handler-IsValid id type_init 0 l2 grown', rw self refl) (λ u k p. p)))

    -- Over an `epoll_ctl` that does not fail, with tables that are in step and a next identifier
    -- that is not in use, a new handler keeps the tables in step, whatever its first call does, and
    -- is registered.
    pub add_handler-IsValid :
        (fd events : ℕ) (l : Loop W)
        → IsValid l
        → l.handlers ((l.autoid + 1) % 2 ^ 64) ≡ false
        → IsValid (add_handler env fd events l).1
          × ((add_handler env fd events l).1.handlers ((l.autoid + 1) % 2 ^ 64) ≡ true)
    unfolding add_handler
    add_handler-IsValid fd events l v free =
        let id : ℕ = (l.autoid + 1) % 2 ^ 64 in
        rw free (
          install-IsValid id
            (record {
              fd = fd;
              events = events;
              error = 0;
              max_error = 10;
              event_total = 0;
              want_remove = false;
            })
            (record l { autoid = id }) v free)

    -- Over an `epoll_ctl` that does not fail, and with handlers that do not throw when they are
    -- removed, a removal from tables that are in step keeps them so, returns, and the handler is
    -- not registered.
    pub remove_handler-IsValid :
        IsQuiet env
        → (id : ℕ) (l : Loop W) → IsValid l
        → IsValid (remove_handler env id l).1
          × ((remove_handler env id l).0 ≡ returned tt)
          × ((remove_handler env id l).1.handlers id ≡ false)
    unfolding remove_handler uninstall call_handler
    remove_handler-IsValid quiet id l v = elim (Bool-cases (l.handlers id)) [
      | inr off ↦ rw off (v, refl, off)
      | inl on ↦
          let self : (id == id) ≡ true = ground arith in
          let l1 : Loop W =
            (call_handler env id type_remove 0
              (record l { handlers = update l.handlers id false })).1 in
          let (a, b, c) =
            poll_remove_fd-IsValid id l1 l.handlers (IsConsistent-same id _ v refl refl) on refl in
          let gone : (poll_remove_fd env id l1).1.handlers id ≡ false =
            ap (λ (t : ℕ → Bool). t id) c ∙ rw self refl in
          rw (on, quiet l.world id 0) (a, b, gone)
    ]

    module _ (quiet : IsQuiet env) where
      remove_wanted-IsValid : (id : ℕ) (l : Loop W) → IsValid l → IsValid (remove_wanted env id l)
      unfolding remove_wanted
      remove_wanted-IsValid id l v =
          if_rule IsValid (l.heap id).want_remove (remove_handler env id l).1 l
            (remove_handler-IsValid quiet id l v).0 v

      count_error-IsValid : (id : ℕ) (l : Loop W) → IsValid l → IsValid (count_error env id l)
      unfolding count_error
      count_error-IsValid id l v =
          let errors : ℕ = ((l.heap id).error + 1) % 2 ^ 32 in
          let l1 : Loop W = put_data id (record (l.heap id) { error = errors }) l in
          let v1 : IsValid l1 = IsConsistent-same id _ v refl refl in
          elim (Bool-cases (leb (l.heap id).max_error errors)) [
            | inl z ↦
                rw z (IsConsistent-same id _ (call_handler-IsValid id type_fatal 0 l1 v1) refl refl)
            | inr z ↦ rw z (call_handler-IsValid id type_error 0 l1 v1)
          ]

      after_call-IsValid :
          (id : ℕ) (r : Outcome (Unit {0}) × Loop W) → IsValid r.1 → IsValid (after_call env id r)
      unfolding after_call
      after_call-IsValid id (returned u, l) v =
          remove_wanted-IsValid id _ (IsConsistent-same id _ v refl refl)
      after_call-IsValid id (errno_thrown e, l) v = elim (Bool-cases (e == eagain)) [
        | inl z ↦ rw z v
        | inr z ↦ rw z (remove_wanted-IsValid id _ (count_error-IsValid id l v))
      ]
      after_call-IsValid id (other_thrown, l) v =
          remove_wanted-IsValid id _ (count_error-IsValid id l v)
      after_call-IsValid id (use_after_free, l) v = v

      pub process_one_event-IsValid :
          (id evs : ℕ) (l : Loop W) → IsValid l → IsValid (process_one_event env id evs l)
      unfolding process_one_event
      process_one_event-IsValid id evs l v =
          let h : HandlerData = l.heap id in
          let l1 : Loop W =
            put_data id (record h { event_total = (h.event_total + 1) % 2 ^ 32 }) l in
          after_call-IsValid id (call_handler env id type_events evs l1)
            (call_handler-IsValid id type_events evs l1 (IsConsistent-same id _ v refl refl))

      process_handlers-IsValid :
          (fd evs : ℕ) (is : List ℕ) (l : Loop W)
          → IsValid l
          → IsValid (process_handlers env fd evs is l).1
      unfolding process_handlers
      process_handlers-IsValid fd evs [] l v = v
      process_handlers-IsValid fd evs (i ∷ is) l v =
          let skip : Bool = bit_and (l.heap i).events evs == 0 in
          let l' : Loop W = if skip then l else process_one_event env i evs l in
          let v' : IsValid l' =
            if_rule IsValid skip l (process_one_event env i evs l) v
              (process_one_event-IsValid i evs l v) in
          let rest : Outcome (Unit {0}) × Loop W = process_handlers env fd evs is l' in
          let r : IsValid rest.1 = process_handlers-IsValid fd evs is l' v' in
          go l' rest v' r (l'.fd_handlers fd)
        where
          go :
              (l' : Loop W) (rest : Outcome (Unit {0}) × Loop W)
              → IsValid l'
              → IsValid rest.1
              → (o : Option FdContext) → IsValid (after_one env o l' rest).1
          go l' rest a b none = a
          go l' rest a b (some c) = b

      process_event-IsValid :
          (fd evs : ℕ) (l : Loop W) → IsValid l → IsValid (process_event env fd evs l).1
      unfolding process_event process_context
      process_event-IsValid fd evs l v = go (l.fd_handlers fd)
        where
          go : (o : Option FdContext) → IsValid (process_context env fd evs o l).1
          go none = v
          go (some c) = process_handlers-IsValid fd evs c.ids l v

      process_events-tables :
          (batch : List (ℕ × ℕ)) (l : Loop W) → IsValid l → IsValid (process_events env batch l).1
      unfolding process_events
      process_events-tables [] l v = v
      process_events-tables ((fd, evs) ∷ rest) l v =
          resume-rule IsValid (process_event env fd evs l) (λ u. process_events env rest)
            (process_event-IsValid fd evs l v) (λ u k w. process_events-tables rest k w)

      -- Over an `epoll_ctl` that does not fail, and with handlers that do not throw when they are
      -- removed, a batch of events that does not come to use a freed context keeps the table of
      -- handlers, the contexts and the armed events in step, whichever handlers throw on an event and
      -- whichever ask to be removed.
      pub process_events-IsValid :
          (batch : List (ℕ × ℕ)) (l : Loop W)
          → IsValid l
          → (process_events env batch l).0 ≢ use_after_free
          → IsValid (process_events env batch l).1
      process_events-IsValid batch l v defined = process_events-tables batch l v
