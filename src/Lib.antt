-- ===== src/Lib.antt =====
-- yc-libvhost-server: a server library for the vhost-user protocol. A virtual machine monitor (the
-- master) passes the guest's memory and its virtqueues over a socket; the library maps the memory,
-- takes requests from the queues, hands them to the client's backend and reports them back.
--
-- The parts and their files:
--   Base      words that wrap, single bits, return codes, lists measured by native numbers.
--   Memmap    memmap.c. Region has the structures, Host the calls that map_memory and unmap_memory
--             make of the host, Cache the list g_regions with its reference counts (objref.h),
--             Slots the table of a map (vhd_memmap_new, vhd_memmap_dup, vhd_memmap_add_slot,
--             vhd_memmap_del_slot, vhd_memmap_ref, vhd_memmap_unref), Translate the functions
--             uva_to_ptr, ptr_to_gpa and gpa_range_to_ptr.
--   Memlog    memlog.c: bitmap_set_atomic, vhd_mark_gpa_range_dirty, vhd_mark_range_dirty.
--   Virtq     virtio/virt_queue.c. Types has the structures of virtio/virt_queue.h,
--             virtio/virtio_spec.h and vhost_spec.h; Chain the walks over descriptors; Inflight
--             the region that outlives the server; Push the completion of a request; Dequeue
--             virtq_dequeue_many with virtq_dequeue_one and virtq_inflight_resubmit. Errors is about
--             the ways in which the first stops, Resubmitted about the last.
--   Blk       virtio/virtio_blk.c. Device has the context, the features and the configuration
--             space, Requests the handlers from handle_buffers on.
--   Server    server.c and bio.h: a request queue with its submission, inflight and completion
--             lists. Order has its operations as steps and what its users see of them.
--   Evloop    event.c: bottom halves, Handlers the handlers of descriptors with handle_events and
--             vhd_run_event_loop, Wakeup the steps of evloop_notify and notify_accept one by one.
--   Vdev      vdev.c and vdev.h. Types has the structures, Flight the requests of a vring,
--             Lifecycle and Callbacks what the control event loop and a request queue do to a vring
--             from its start until it has drained, Messages the handlers of vhost_msg_handlers,
--             Session conn_read, server_read, vhd_vdev_init_server and vhd_vdev_stop_server.
--             Counters relates the counters of a device to its vrings, Callings puts the callbacks
--             together, Handling the messages. Drains and Failures are about vring_mark_drained_bh and
--             vring_start_failed_bh, Stuck and Faults about sessions that do not end well.
--
-- How they interact: a walk of Virtq.Chain maps each descriptor by Memmap.Translate; a request that
-- Virtq.Dequeue takes goes to a handler, of which Blk.Requests has one; the handler completes it by
-- Virtq.Push, which marks what was written in Memlog by translating it back. A request waits in a
-- queue of Server, which counts it in the Flight of its vring. The messages of Vdev.Messages change
-- the table of Memmap and the vrings; a started vring takes over a change by a callback in its
-- request queue, which answers by a callback in the control event loop. Both loops are those of
-- Evloop; in Vdev a callback that was handed over is a count, so that they may run in any order.
--
-- State is passed explicitly. A function that returns 0 or a negative errno becomes one into
-- `Result`; a failed assertion is `none` (virtq_push, vhd_mark_gpa_range_dirty, virtio_virtq_init).
-- Numbers are natural numbers with the wrap of their C type written out: add16, sub16, add64,
-- sub64 and `% 2 ^ w`. Pointers are addresses. A virtqueue's rings are fields of the queue and not
-- bytes of guest memory, so a guest that lets its buffers overlap its rings is out of the model,
-- and so is what other threads do; the places where the driver is known to race are parameters:
-- the later values of the available index (Dequeue), and the shared memory between two reads of
-- virtio-blk's request header (Blk.Requests).
--
-- The code that is not here is a parameter: the host's mmap, fstat and the client's callbacks are
-- `Memmap.Host.Os`, with what `mmap` documents as `WellBehaved`; a backend's submission function
-- and a device's handler are arguments. Descriptors are read by a function from addresses. What the
-- host answers while a message is handled is `Vdev.Messages.Host`. The functions that an event loop
-- calls are arguments; `IsWellBehaved` and `Acts` say that they act on the loop by its operations.
--
-- Bounds: a walk has fuel for one descriptor more than the longest chain (max_chain_len), and the
-- walk of an indirect table for as many as the ring has left; both count each round by a buffer,
-- so that the fuel suffices. Other loops are structural. The inflight region is used with batches
-- of one request, as in the code. Chains, metrics and used indices wrap as in the code; reference
-- counts are assumed below the top of their type.
--
-- Not modelled: the registration in blockdev.c and virtio/virtio_fs.c, which stand around the parts
-- above; of vdev.c the timers and times, the pieces of net_send_msg, vring_kick, the socket and the
-- statistics; of server.c the thread of the vhost event loop; of event.c the creation of a loop, the
-- check of its home thread and vhd_submit_work_and_wait; logging, allocation (which aborts on
-- failure), memory barriers other than by the order of the stores, big-endian hosts,
-- virtio_virtq_release and virtq_get_stat beyond whether the buffers are allocated, and
-- vhd_memlog_new and vhd_memlog_free, which map the log. A handler of a descriptor that was detached
-- is taken to attach again without an error.
--
-- Narrower than the code: a session does not count the references to a map that the requests in
-- flight hold, so a map lives only as long as the device, its vrings and its message use it. The
-- closing of the timer's descriptor is not recorded. virtio_virtq_init asserts that the inflight
-- region has batches of one, which the rings tell and a session does not see. The stores of a
-- completion put the id and the length of a used element at once, and the head that virtq_push
-- reads back from the used ring is passed on. A range of pages past the end of a log that is not of
-- whole words is excluded, as the code's shift is undefined there.
pub mod Base
pub mod Memmap
pub mod Memlog
pub mod Virtq
pub mod Blk
pub mod Vdev
pub mod Server
pub mod Evloop
