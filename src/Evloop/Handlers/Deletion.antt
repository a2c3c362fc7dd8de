-- ===== src/Evloop/Handlers/Deletion.antt =====
-- Handlers of event.c that are deleted while events for them are ready.
use yc_libvhost_server.Base.{All, Errno, ℕ, ◌<◌, ◌≡◌, false, Option, some, List}
use yc_libvhost_server.Evloop.{IoHandlers, Loop}
use yc_libvhost_server.Evloop.Handlers.{
  attach_io_handler, add_io_handler, detach_io_handler, del_io_handler, Event,
}

-- The memory of a handler was allocated and did not go back to the host.
abbrev pub IsLive : IoHandlers → ℕ → Type 0
IsLive io a = (a < io.next_handler) × ((io.handler a).freed ≡ false)

-- Handlers that were in memory are.
abbrev pub Keeps : IoHandlers → IoHandlers → Type 0
Keeps io io' = (a : ℕ) → IsLive io a → IsLive io' a

-- What a function that the loop calls can do to it by the operations of event.c: add, attach, detach
-- and delete handlers, whatever epoll_ctl answers, and anything to the rest of the loop.
pub data Acts (loop : Loop) : Loop → Type 0 where
  nothing : Acts loop loop
  elsewhere : {mid last : Loop} → Acts loop mid → last.io ≡ mid.io → Acts loop last
  adds :
      {mid : Loop} (answer : Option Errno) (fd : ℕ)
      → Acts loop mid
      → Acts loop (record mid { io = (add_io_handler answer fd mid.io).0 })
  attaches :
      {mid : Loop} (answer : Option Errno) (h : ℕ) (out : IoHandlers × Option Errno)
      → Acts loop mid
      → attach_io_handler answer h mid.io ≡ some out
      → Acts loop (record mid { io = out.0 })
  detaches :
      {mid : Loop} (answer : Option Errno) (h : ℕ)
      → Acts loop mid
      → Acts loop (record mid { io = (detach_io_handler answer h mid.io).0 })
  deletes :
      {mid : Loop} (answer : Option Errno) (h : ℕ) (out : IoHandlers × Option Errno)
      → Acts loop mid
      → del_io_handler answer h mid.io ≡ some out
      → Acts loop (record mid { io = out.0 })

-- The handlers of these events are in memory.
abbrev pub InMemory : Loop → List Event → Type 0
InMemory loop = All (λ e. (h : ℕ) → e.ptr ≡ some h → IsLive loop.io h)
