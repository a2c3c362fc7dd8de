-- ===== src/Vdev/Handling.antt =====
-- vhost_handle_msg of vdev.c keeps the counters of a device.
use yc_libvhost_server.Base.{◌==◌, if◌then◌else◌, ℕ, Bool, true, false}
use yc_libvhost_server.Vdev.Counters.{IsCounted}
use yc_libvhost_server.Vdev.Messages.{Msg, Host, Outcome}
use yc_libvhost_server.Vdev.Messages.Counted.{IsReady, Holds}
use yc_libvhost_server.Vdev.Messages.Kicks.{set_vring_kick-Keeps}
use yc_libvhost_server.Vdev.Messages.Sessions.{
  get_protocol_features-Keeps, set_protocol_features-Keeps, get_features-Keeps, set_features-Keeps,
  set_owner-Keeps, get_queue_num-Keeps, get_max_mem_slots-Keeps, get_config-Keeps,
  set_log_base-Keeps, get_inflight_fd-Keeps, set_inflight_fd-Keeps,
}
use yc_libvhost_server.Vdev.Messages.Starts.{
  set_vring_num-Keeps, set_vring_base-Keeps, get_vring_base-Keeps, vring_enable-Keeps,
  set_vring_addr-Keeps, set_vring_call-Keeps, set_vring_err-Keeps,
}
use yc_libvhost_server.Vdev.Messages.Tables.{
  set_mem_table-Keeps, add_mem_reg-Keeps, rem_mem_reg-Keeps,
}
use yc_libvhost_server.Vdev.Session.{vhost_handle_msg}
use yc_libvhost_server.Vdev.Types.{Vdev}

module _ (env : Host) (msg : Msg) (d : Vdev) (r : IsReady d) where
  by_request :
      (req : ℕ) (x y : Outcome)
      → Holds IsCounted x
      → Holds IsCounted y
      → Holds IsCounted (if msg.req == req then x else y)
  by_request req x y h k = held (msg.req == req)
    where
      held : (b : Bool) → Holds IsCounted (if b then x else y)
      held true = h
      held false = k

  -- Whatever message a client sends, its handler leaves a device whose three counters of vrings (in
  -- flight, started and handling a message) are those of its vrings, and each vring is in one phase
  -- between its start and its end and takes part in at most one message, unless an assertion of the
  -- handler fails. The device before is such a device, no vring of it handles a message, and a vring
  -- that is not started does not wait to be marked as stopped.
  pub vhost_handle_msg-IsCounted : Holds IsCounted (vhost_handle_msg env msg d)
  unfolding vhost_handle_msg
  vhost_handle_msg-IsCounted = by_request 1 _ _ (get_features-Keeps env msg d r) (
      by_request 2 _ _ (set_features-Keeps env msg d r) (
        by_request 3 _ _ (set_owner-Keeps env msg d r) (
          by_request 5 _ _ (set_mem_table-Keeps env msg d r) (
            by_request 6 _ _ (set_log_base-Keeps env msg d r) (
              by_request 8 _ _ (set_vring_num-Keeps env msg d r) (
                by_request 9 _ _ (set_vring_addr-Keeps env msg d r) (
                  by_request 10 _ _ (set_vring_base-Keeps env msg d r) (
                    by_request 11 _ _ (get_vring_base-Keeps env msg d r) (
                      by_request 12 _ _ (set_vring_kick-Keeps env msg d r) (
                        by_request 13 _ _ (set_vring_call-Keeps env msg d r) (
                          by_request 14 _ _ (set_vring_err-Keeps env msg d r) (
                            by_request 15 _ _ (get_protocol_features-Keeps env msg d r) (
                              by_request 16 _ _ (set_protocol_features-Keeps env msg d r) (
                                by_request 17 _ _ (get_queue_num-Keeps env msg d r) (
                                  by_request 18 _ _ (vring_enable-Keeps env msg d r) (
                                    by_request 24 _ _ (get_config-Keeps env msg d r) (
                                      by_request 31 _ _ (get_inflight_fd-Keeps env msg d r) (
                                        by_request 32 _ _ (set_inflight_fd-Keeps env msg d r) (
                                          by_request 36 _ _ (get_max_mem_slots-Keeps env msg d r) (
                                            by_request 37 _ _ (add_mem_reg-Keeps env msg d r) (
                                              by_request 38 _ _ (rem_mem_reg-Keeps env msg d r)
                                                r.counted)))))))))))))))))))))
