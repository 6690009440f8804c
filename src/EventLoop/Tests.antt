-- ===== src/EventLoop/Tests.antt =====
-- The theorems on the event loop (src/lib/event-loop.cpp) at loops with one handler or none.
use nanodistro.Base.{ℕ, ◌+◌, ◌%◌, ◌^◌, true, false, [], ◌∷◌, none, some, ◌≡◌, refl, arith, ◌==◌}
use nanodistro.EventLoop.{
  Loop, Env, HandlerData, FdContext, CallbackType, type_init, type_events, type_error, type_fatal,
  type_remove, Outcome, returned, other_thrown, use_after_free, add_handler, remove_handler,
  process_events, process_one_event, epoll_control, process_event,
}
use nanodistro.EventLoop.Registry.{IsValid}
use nanodistro.EventLoop.Handlers.{
  add_handler-IsValid, remove_handler-IsValid, process_events-IsValid,
}
use nanodistro.EventLoop.Faults.{process_one_event-removes, process_event-freed}

-- A handler that throws on each event, and on nothing else.
abbrev on_call : CallbackType → Outcome (Unit {0})
on_call type_events = other_thrown
on_call type_init = returned tt
on_call type_error = returned tt
on_call type_fatal = returned tt
on_call type_remove = returned tt

abbrev failing : Env (Unit {0})
failing = record {
  handle = λ w id type evs. (tt, false, on_call type);
  epoll_ctl = λ w op fd evs. (tt, none);
  close = λ w fd. tt;
}

abbrev blank : HandlerData
blank = record {
  fd = 0;
  events = 0;
  error = 0;
  max_error = 0;
  event_total = 0;
  want_remove = false;
}

abbrev empty_loop : Loop (Unit {0})
empty_loop = record {
  world = tt;
  heap = λ id. blank;
  handlers = λ id. false;
  fd_handlers = λ fd. none;
  jobs = λ id. false;
  autoid = 0;
}

empty_loop-IsValid : IsValid empty_loop
empty_loop-IsValid = record { linked = λ id. refl; contexts = λ fd c e. absurd (none_some fd c e) }
  where
    none_some : (fd : ℕ) (c : FdContext) → empty_loop.fd_handlers fd ≡ some c → ⊥
    none_some fd c e = ground arith

-- One handler, with the identifier 1, on the descriptor 5 for the events 1.
abbrev one_handler : Loop (Unit {0})
one_handler = (add_handler failing 5 1 empty_loop).1

one_handler-IsValid : IsValid one_handler
one_handler-IsValid =
    (add_handler-IsValid failing (λ w op fd evs. refl) 5 1 empty_loop empty_loop-IsValid refl).0

add_handler-IsValid_example :
    IsValid (add_handler failing 5 1 empty_loop).1
    × ((add_handler failing 5 1 empty_loop).1.handlers ((0 + 1) % 2 ^ 64) ≡ true)
add_handler-IsValid_example =
    add_handler-IsValid failing (λ w op fd evs. refl) 5 1 empty_loop empty_loop-IsValid refl

remove_handler-IsValid_example :
    IsValid (remove_handler failing 1 one_handler).1
    × ((remove_handler failing 1 one_handler).0 ≡ returned tt)
    × ((remove_handler failing 1 one_handler).1.handlers 1 ≡ false)
remove_handler-IsValid_example =
    remove_handler-IsValid failing (λ w op fd evs. refl) (λ w id evs. refl) 1 one_handler
      one_handler-IsValid

one_event : (process_events failing ((5, 1) ∷ []) one_handler).0 ≡ returned tt
unfolding process_events process_event process_one_event add_handler epoll_control
one_event = refl

process_events-IsValid_example : IsValid (process_events failing ((5, 1) ∷ []) one_handler).1
process_events-IsValid_example =
    process_events-IsValid failing (λ w op fd evs. refl) (λ w id evs. refl) ((5, 1) ∷ [])
      one_handler one_handler-IsValid (λ e. ground (arith, one_event, e))

-- A handler that fails once more is dropped.
abbrev last_chance : Loop (Unit {0})
last_chance = record {
  world = tt;
  heap = λ id. record {
    fd = 5;
    events = 1;
    error = 9;
    max_error = 10;
    event_total = 0;
    want_remove = false;
  };
  handlers = λ id. id == 1;
  fd_handlers =
      λ fd. elim (fd == 5) [ true ↦ some (record { armed = 1; ids = 1 ∷ [] }) | false ↦ none ];
  jobs = λ id. false;
  autoid = 1;
}

process_one_event-removes_example : (process_one_event failing 1 1 last_chance).handlers 1 ≡ false
process_one_event-removes_example =
    process_one_event-removes failing 1 1 last_chance refl (omega arith)

process_event-freed_example : (process_event failing 5 1 last_chance).0 ≡ use_after_free
process_event-freed_example =
    process_event-freed failing (λ w op fd evs. refl) (λ w id evs. refl) 5 1 1 1 last_chance
      (refl, refl, refl) refl refl (omega arith)
