-- ===== src/Evloop/Handlers.antt =====
-- The handlers of descriptors, and an iteration of the loop: vhd_attach_io_handler,
-- vhd_add_io_handler, vhd_detach_io_handler, vhd_del_io_handler, handle_events and
-- vhd_run_event_loop of event.c. The answer of epoll_ctl, an error if it has one, is a parameter.
pub mod Deletion
use mathlib.Core.Option
use yc_libvhost_server.Base.{
  ltb, ◌==◌, if◌then◌else◌, Errno, eio, ◌>>=◌, ℕ, suc, ◌-◌, Bool, true, false, Option, none, some,
  List, [], ◌∷◌, ◌++◌,
}
use yc_libvhost_server.Evloop.{IoHandlers, Loop, notify_accept, bh_poll}
use yc_libvhost_server.Evloop.Wakeup.{reads}
use yc_libvhost_server.Server.{put}

abbrev pub set_attached : ℕ → Bool → IoHandlers → IoHandlers
set_attached h b io = record io {
  handler = put h (record (io.handler h) { attached = b }) io.handler;
}

-- What epoll_ctl answers to the attempt to attach a handler, and to detach it.
abbrev pub attach_as : Option Errno → ℕ → IoHandlers → IoHandlers × Option Errno
attach_as (some e) h io = (io, some e)
attach_as none h io = (set_attached h true io, none)

abbrev pub detach_as : Option Errno → ℕ → IoHandlers → IoHandlers × Option Errno
detach_as (some e) h io = (io, some e)
detach_as none h io = (set_attached h false io, none)

-- `none` where an assertion fails.
pub attach_io_handler : Option Errno → ℕ → IoHandlers → Option (IoHandlers × Option Errno)
attach_io_handler answer h io =
    if (io.handler h).attached then none else some (attach_as answer h io)

-- The handler that is added is the next to be allocated; it is freed if it cannot be attached.
pub add_io_handler : Option Errno → ℕ → IoHandlers → IoHandlers × Option ℕ
add_io_handler (some e) fd io = (
  record io {
    handler = put io.next_handler (record { fd = fd; attached = false; freed = true }) io.handler;
    next_handler = suc io.next_handler;
  },
  none,
)
add_io_handler none fd io = (
  record io {
    handler = put io.next_handler (record { fd = fd; attached = true; freed = false }) io.handler;
    next_handler = suc io.next_handler;
    num_events_attached = suc io.num_events_attached;
  },
  some io.next_handler,
)

unfoldable pub detach_io_handler : Option Errno → ℕ → IoHandlers → IoHandlers × Option Errno
detach_io_handler answer h io =
    if (io.handler h).attached then detach_as answer h io else (io, none)

-- A handler that was detached is put on the list of those to be freed, unless the assertion of
-- event_loop_dec_events fails.
abbrev pub delete_as : ℕ → IoHandlers × Option Errno → Option (IoHandlers × Option Errno)
delete_as h (io, some e) = some (io, some e)
delete_as h (io, none) =
    if ltb 0 io.num_events_attached
    then some (
      record io {
        deleted_handlers = h ∷ io.deleted_handlers;
        num_events_attached = io.num_events_attached - 1;
      },
      none,
    )
    else none

-- `none` where an assertion fails.
pub del_io_handler : Option Errno → ℕ → IoHandlers → Option (IoHandlers × Option Errno)
del_io_handler answer h io = delete_as h (detach_io_handler answer h io)

-- `struct epoll_event`: the handler, none for the eventfd of the loop, and whether EPOLLIN,
-- EPOLLERR or EPOLLRDHUP is among the events.
pub record Event : Type 0 where
  pub ptr : Option ℕ
  pub is_readable : Bool

pub free_deleted : List ℕ → IoHandlers → IoHandlers
free_deleted [] io = record io { deleted_handlers = [] }
free_deleted (h ∷ hs) io =
    free_deleted hs
      (record io { handler = put h (record (io.handler h) { freed = true }) io.handler })

-- `read` is what a handler's function does to the loop, and whether it returned an error.
module _ (read : ℕ → Loop → Loop × Bool) where
  abbrev pub called_read : ℕ → Loop → Loop
  called_read h loop = record loop { io = record (loop.io) { reads = loop.io.reads ++ h ∷ [] } }

  abbrev pub handle_one_event : ℕ → Bool → Loop → Loop × Bool
  handle_one_event h is_readable loop =
      if is_readable then read h (called_read h loop) else (loop, false)

  visit_handler : ℕ → Bool → Loop → Loop × Bool
  visit_handler h is_readable loop =
      if (loop.io.handler h).attached then handle_one_event h is_readable loop else (loop, false)

  -- The number of errors grows by one for each function that returned one. `none` where the
  -- memory of a freed handler is read.
  visit_ptr : Option ℕ → Bool → Loop → ℕ → Option (Loop × ℕ)
  visit_ptr none is_readable loop nerr = some (loop, nerr)
  visit_ptr (some h) is_readable loop nerr =
      let out = visit_handler h is_readable loop in
      if (loop.io.handler h).freed then none else some (out.0, if out.1 then suc nerr else nerr)

  pub visit_events : List Event → Loop → ℕ → Option (Loop × ℕ)
  visit_events [] loop nerr = some (loop, nerr)
  visit_events (e ∷ events) loop nerr = do
    (loop', nerr') ← visit_ptr e.ptr e.is_readable loop nerr
    visit_events events loop' nerr'

  pub handle_events : List Event → Loop → Option (Loop × ℕ)
  handle_events events loop = do
    (loop', nerr) ← visit_events events loop 0
    some (record loop' { io = free_deleted loop'.io.deleted_handlers loop'.io }, nerr)

-- What epoll_wait answered: events, nothing, EINTR or another error.
pub data Waited : Type 0 where
  ready : List Event → Waited
  timeout : Waited
  interrupted : Waited
  failed : Errno → Waited

-- What vhd_run_event_loop returns: 0, -EAGAIN, or another error.
pub data RunResult : Type 0 where
  finished : RunResult
  again : RunResult
  stopped : Errno → RunResult

module _ (user_cb : ℕ → Loop → Loop) (read : ℕ → Loop → Loop × Bool) where
  pub after_wait : Waited → Loop → Option (Loop × RunResult)
  after_wait timeout loop = some (loop, again)
  after_wait interrupted loop = some (loop, again)
  after_wait (failed e) loop = some (loop, stopped e)
  after_wait (ready events) loop = do
    (loop', nerr) ← handle_events read events (bh_poll user_cb (notify_accept loop))
    some (loop', if nerr == 0 then again else stopped eio)

  -- One call, on the thread that owns the loop; `none` where freed memory is read.
  pub run_event_loop : Waited → Loop → Option (Loop × RunResult)
  run_event_loop waited loop =
      if loop.is_terminated then some (loop, finished) else after_wait waited loop
