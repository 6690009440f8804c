-- ===== src/EventLoop.antt =====
-- The event loop (src/lib/event-loop.cpp, include/event-loop.h): handlers registered on file
-- descriptors over one epoll instance. A handler's data is a shared object, kept in a heap under
-- its identifier; `handlers` and the context of its descriptor point to it. Of its data a handler
-- sets `want_remove` only, and it does not call the loop.
pub mod Registry
pub mod Handlers
pub mod Faults
mod Tests
use Prim.Native.Nat.{bit_or, bit_and}
use nanodistro.Base.{
  ℕ, zero, suc, ◌+◌, ◌/◌, ◌%◌, ◌^◌, Bool, true, false, not, ◌&&◌, ◌||◌, List, [], ◌∷◌, ◌++◌, Option,
  none, some, ◌==◌, leb, is_empty, if◌then◌else◌,
}

pub data CallbackType : Type 0 where
  type_init type_events type_error type_fatal type_remove : CallbackType

-- A value, an `ErrnoErrorImpl` with its number, another exception, or undefined behaviour: the use
-- of a context that has been freed.
pub data Outcome (A : Type 0) : Type 0 where
  returned : A → Outcome A
  errno_thrown : ℕ → Outcome A
  other_thrown : Outcome A
  use_after_free : Outcome A

-- `event_handler_data`
pub record HandlerData : Type 0 where
  pub fd : ℕ
  pub events : ℕ
  pub error : ℕ
  pub max_error : ℕ
  pub event_total : ℕ
  pub want_remove : Bool

-- `event_fd_context`; its list holds identifiers.
pub record FdContext : Type 0 where
  pub armed : ℕ
  pub ids : List ℕ

pub data CtlOp : Type 0 where
  ctl_add ctl_mod ctl_del : CtlOp

-- What the loop calls: the handler with an identifier, which may throw and says whether it wants to
-- be removed; `epoll_ctl`, which ends with an error number or none; and `close`.
pub record Env (W : Type 0) : Type 0 where
  pub handle : W → ℕ → CallbackType → ℕ → W × Bool × Outcome (Unit {0})
  pub epoll_ctl : W → CtlOp → ℕ → ℕ → W × Option ℕ
  pub close : W → ℕ → W

pub record Loop (W : Type 0) : Type 0 where
  pub world : W
  pub heap : ℕ → HandlerData
  pub handlers : ℕ → Bool
  pub fd_handlers : ℕ → Option FdContext
  pub jobs : ℕ → Bool
  pub autoid : ℕ

abbrev pub Action : Type 0 → Type 0 → Type 0
Action W A = Loop W → Outcome A × Loop W

abbrev pub resume : {W A B : Type 0} → Outcome A × Loop W → (A → Action W B) → Outcome B × Loop W
resume (returned a, l) f = f a l
resume (errno_thrown e, l) f = (errno_thrown e, l)
resume (other_thrown, l) f = (other_thrown, l)
resume (use_after_free, l) f = (use_after_free, l)

infixl 5 ◌>>=◌ ◌>>◌
abbrev pub ◌>>=◌ : {W A B : Type 0} → Action W A → (A → Action W B) → Action W B
◌>>=◌ m f l = resume (m l) f

abbrev pub ◌>>◌ : {W B : Type 0} → Action W (Unit {0}) → Action W B → Action W B
m >> k = m >>= λ _. k

abbrev pub modify : {W : Type 0} → (Loop W → Loop W) → Action W (Unit {0})
modify f l = (returned tt, f l)

-- The write of a map at a key.
abbrev pub update {ℓ} : {A : Type ℓ} → (ℕ → A) → ℕ → A → ℕ → A
update m k v q = if q == k then v else m q

abbrev pub put_data : {W : Type 0} → ℕ → HandlerData → Loop W → Loop W
put_data id h l = record l { heap = update l.heap id h }

abbrev pub put_context : {W : Type 0} → ℕ → Option FdContext → Loop W → Loop W
put_context fd c l = record l { fd_handlers = update l.fd_handlers fd c }

abbrev pub member : ℕ → List ℕ → Bool
member i [] = false
member i (x ∷ xs) = i == x || member i xs

-- `handlers.erase(it)`: the first occurrence
abbrev pub erase : ℕ → List ℕ → List ℕ
erase i [] = []
erase i (x ∷ xs) = if i == x then xs else x ∷ erase i xs

-- `for(i:handlers)new_evs|=i->events;`
abbrev pub union : (ℕ → HandlerData) → ℕ → List ℕ → ℕ
union heap evs [] = evs
union heap evs (i ∷ is) = union heap (bit_or evs (heap i).events) is

abbrev pub eagain : ℕ
eagain = 11

abbrev pub ebadf : ℕ
ebadf = 9

-- `if(ret<0)throw ErrnoError(...)`, and with `EBADF` let through
abbrev pub ctl_result : {W : Type 0} → Bool → Option ℕ → Action W (Unit {0})
ctl_result forgive none l = (returned tt, l)
ctl_result forgive (some e) l =
    if forgive && (e == ebadf) then (returned tt, l) else (errno_thrown e, l)

module _ {W : Type 0} (env : Env W) where
  unfoldable pub call_handler : ℕ → CallbackType → ℕ → Action W (Unit {0})
  call_handler id type evs l =
      let (w, wants, outcome) = env.handle l.world id type evs in
      let h = l.heap id in
      (
        outcome,
        put_data id (record h { want_remove = h.want_remove || wants }) (record l { world = w }),
      )

  unfoldable pub epoll_control : Bool → CtlOp → ℕ → ℕ → Action W (Unit {0})
  epoll_control forgive op fd evs l =
      let (w, r) = env.epoll_ctl l.world op fd evs in ctl_result forgive r (record l { world = w })

  -- `poll_add_fd` with what it has found for the descriptor
  unfoldable pub poll_add : ℕ → Option FdContext → Action W (Unit {0})
  poll_add id none l =
      let h = l.heap id in
      (do
        epoll_control false ctl_add h.fd h.events
        modify (put_context h.fd (some (record { armed = h.events; ids = id ∷ [] }))))
        l
  poll_add id (some c) l =
      let fd = (l.heap id).fd in
      let new_evs = bit_or c.armed (l.heap id).events in
      if new_evs == c.armed
      then modify (put_context fd (some (record { armed = c.armed; ids = c.ids ++ id ∷ [] }))) l
      else (do
        modify (put_context fd (some (record c { armed = new_evs })))
        epoll_control false ctl_mod fd new_evs
        modify (put_context fd (some (record { armed = new_evs; ids = c.ids ++ id ∷ [] }))))
          l

  unfoldable pub poll_add_fd : ℕ → Action W (Unit {0})
  unfolding poll_add
  poll_add_fd id l = poll_add id (l.fd_handlers (l.heap id).fd) l

  -- `poll_remove_fd` once the handler is out of the list of its context
  unfoldable pub shrink_context : ℕ → FdContext → List ℕ → Action W (Unit {0})
  shrink_context fd c rest l =
      let new_evs = union l.heap 0 rest in
      if is_empty rest
      then (do
        modify (put_context fd (some (record c { ids = rest })))
        epoll_control true ctl_del fd c.armed
        modify (put_context fd none))
          l
      else if new_evs == c.armed
      then modify (put_context fd (some (record c { ids = rest }))) l
      else (do
        modify (put_context fd (some (record { armed = new_evs; ids = rest })))
        epoll_control false ctl_mod fd new_evs)
          l

  -- `poll_remove_fd` with what it has found for the descriptor
  unfoldable pub poll_remove : ℕ → Option FdContext → Action W (Unit {0})
  unfolding shrink_context
  poll_remove id none l = (other_thrown, l)
  poll_remove id (some c) l =
      if member id c.ids
      then shrink_context (l.heap id).fd c (erase id c.ids) l
      else (other_thrown, l)

  unfoldable pub poll_remove_fd : ℕ → Action W (Unit {0})
  unfolding poll_remove
  poll_remove_fd id l = poll_remove id (l.fd_handlers (l.heap id).fd) l

  -- `add_handler` from `poll_add_fd` on
  unfoldable pub install : ℕ → Action W ℕ
  unfolding poll_add_fd call_handler
  install id = do poll_add_fd id; call_handler id type_init 0; λ k. (returned id, k)

  unfoldable pub add_handler : ℕ → ℕ → Action W ℕ
  unfolding install
  add_handler fd events l =
      let id = (l.autoid + 1) % 2 ^ 64 in
      let fresh : HandlerData = record {
        fd = fd;
        events = events;
        error = 0;
        max_error = 10;
        event_total = 0;
        want_remove = false;
      } in
      let l' = put_data id fresh (record l { autoid = id }) in
      if l.handlers id
      then (other_thrown, l')
      else install id (record l' { handlers = update l.handlers id true })

  -- `remove_handler` once the handler is out of `handlers`
  unfoldable pub uninstall : ℕ → Action W (Unit {0})
  unfolding poll_remove_fd call_handler
  uninstall id = do call_handler id type_remove 0; poll_remove_fd id

  unfoldable pub remove_handler : ℕ → Action W (Unit {0})
  unfolding uninstall
  remove_handler id l =
      if l.handlers id
      then uninstall id (record l { handlers = update l.handlers id false })
      else (returned tt, l)

  unfoldable pub call_each : CallbackType → List ℕ → Action W (Unit {0})
  unfolding call_handler
  call_each type [] l = (returned tt, l)
  call_each type (i ∷ is) l = (call_handler i type 0 >> call_each type is) l

  unfoldable pub close_fd : ℕ → Action W (Unit {0})
  unfolding call_each
  close_fd fd l = elim (l.fd_handlers fd) [
    | none ↦ (returned tt, l)
    | some c ↦
        (do
          call_each type_remove c.ids
          epoll_control true ctl_del fd c.armed
          modify (put_context fd none)
          modify (λ k. record k { world = env.close k.world fd }))
          l
  ]

  -- `try{...}catch(...){}`
  abbrev pub caught : {A : Type 0} → Outcome A × Loop W → Loop W
  caught r = r.1

  -- `if(h->want_remove)try{remove_handler(h->id);}catch(...){}`
  unfoldable pub remove_wanted : ℕ → Loop W → Loop W
  unfolding remove_handler
  remove_wanted id l = if (l.heap id).want_remove then caught (remove_handler id l) else l

  -- the handler of an exception of `process_one_event`
  unfoldable pub count_error : ℕ → Loop W → Loop W
  unfolding call_handler
  count_error id l =
      let h = l.heap id in
      let errors = (h.error + 1) % 2 ^ 32 in
      let l1 = put_data id (record h { error = errors }) l in
      if leb h.max_error errors
      then (let l2 = caught (call_handler id type_fatal 0 l1) in
          put_data id (record (l2.heap id) { want_remove = true }) l2)
      else caught (call_handler id type_error 0 l1)

  unfoldable pub after_call : ℕ → Outcome (Unit {0}) × Loop W → Loop W
  unfolding remove_wanted count_error
  after_call id (returned u, l) =
      remove_wanted id (put_data id (record (l.heap id) { error = (l.heap id).error / 2 }) l)
  after_call id (errno_thrown e, l) = if e == eagain then l else remove_wanted id (count_error id l)
  after_call id (other_thrown, l) = remove_wanted id (count_error id l)
  after_call id (use_after_free, l) = l

  unfoldable pub process_one_event : ℕ → ℕ → Loop W → Loop W
  unfolding after_call call_handler
  process_one_event id evs l =
      let h = l.heap id in
      let l1 = put_data id (record h { event_total = (h.event_total + 1) % 2 ^ 32 }) l in
      after_call id (call_handler id type_events evs l1)

  -- The end of a round of the loop over the handlers of a context: its test reads the context,
  -- which is freed when its last handler has been removed.
  abbrev pub after_one :
      Option FdContext → Loop W → Outcome (Unit {0}) × Loop W → Outcome (Unit {0}) × Loop W
  after_one none l rest = (use_after_free, l)
  after_one (some c) l rest = rest

  unfoldable pub process_handlers : ℕ → ℕ → List ℕ → Action W (Unit {0})
  unfolding process_one_event
  process_handlers fd evs [] l = (returned tt, l)
  process_handlers fd evs (i ∷ is) l =
      let l' = if bit_and (l.heap i).events evs == 0 then l else process_one_event i evs l in
      after_one (l'.fd_handlers fd) l' (process_handlers fd evs is l')

  -- `process_event` with the context that the event points to
  unfoldable pub process_context : ℕ → ℕ → Option FdContext → Action W (Unit {0})
  unfolding process_handlers
  process_context fd evs none l = (use_after_free, l)
  process_context fd evs (some c) l = process_handlers fd evs c.ids l

  -- The event carries a pointer to the context of its descriptor.
  unfoldable pub process_event : ℕ → ℕ → Action W (Unit {0})
  unfolding process_context
  process_event fd evs l = process_context fd evs (l.fd_handlers fd) l

  -- a batch of descriptors with their events
  unfoldable pub process_events : List (ℕ × ℕ) → Action W (Unit {0})
  unfolding process_event
  process_events [] l = (returned tt, l)
  process_events ((fd, evs) ∷ rest) l = (process_event fd evs >> process_events rest) l

-- The loop over `++autoid`; the last argument is the fuel.
unfoldable pub free_job_id : (ℕ → Bool) → ℕ → ℕ → ℕ
free_job_id jobs id zero = (id + 1) % 2 ^ 64
free_job_id jobs id (suc fuel) =
    let next = (id + 1) % 2 ^ 64 in
    elim (jobs next) [ true ↦ free_job_id jobs next fuel | false ↦ next ]

unfoldable pub add_loop_job : {W : Type 0} → ℕ → Action W ℕ
unfolding free_job_id
add_loop_job fuel l =
    let id = free_job_id l.jobs l.autoid fuel in
    (returned id, record l { jobs = update l.jobs id true; autoid = id })

unfoldable pub remove_loop_job : {W : Type 0} → ℕ → Action W (Unit {0})
remove_loop_job id l = (returned tt, record l { jobs = update l.jobs id false })
