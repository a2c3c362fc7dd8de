-- ===== src/Vdev/Messages/Sessions.antt =====
-- The handlers of vdev.c that concern the whole device keep its counters.
use yc_libvhost_server.Base.{
  ltb, ◌==◌, if-elim, Errno, Result, ok, err, ℕ, ◌^◌, min, bit_xor, ◌≡◌, refl, ◌||◌, not, Option,
  none, some, List, [], ◌∷◌,
}
use yc_libvhost_server.Memlog.{Memlog}
use yc_libvhost_server.Memmap.Region.{ram_slots_max}
use yc_libvhost_server.Vdev.Controls.{Shares-fields}
use yc_libvhost_server.Vdev.Counters.{
  key, IsCounted, Shares, Shares-refl, Shares-trans, IsCounted-Shares,
}
use yc_libvhost_server.Vdev.Lifecycle.{vhost_reply, vhost_ack, complete}
use yc_libvhost_server.Vdev.Marks.{reply-Shares}
use yc_libvhost_server.Vdev.Messages.{
  InflightInfo, Msg, Host, u64_size, inflight_size, log_size, config_hdr_size, config_space_size,
  Outcome, has_fds,
}
use yc_libvhost_server.Vdev.Messages.Counted.{
  IsReady, Holds, IsReady-Shares, ack-any, complete-any, handle_msg_all-IsCounted,
  finish_in_all-IsCounted,
}
use yc_libvhost_server.Vdev.Messages.Features.{
  get_config, and_not, get_protocol_features, set_protocol_features, get_features, set_log,
  used_log, update_shadow_vq_memlog, feature_vring, set_features, set_owner, get_queue_num,
  get_max_mem_slots, config_reply,
}
use yc_libvhost_server.Vdev.Messages.Shared.{
  use_memlog, set_log_from, set_log_base, inflight_buf_size, mul64, map_regions,
  inflight_mmap_region, reply_inflight, fill_inflight, create_inflight, get_inflight_fd, ack_unless,
  set_inflight_from, set_inflight_fd,
}
use yc_libvhost_server.Vdev.Types.{
  Vring, features_complete, log_base_complete, Payload, u64, Vdev, on_vrings, close_fd,
}

abbrev pub Keeps : (Host → Msg → Vdev → Outcome) → Type 0
Keeps handler =
    (env : Host) (msg : Msg) (d : Vdev) → IsReady d → Holds IsCounted (handler env msg d)

module _ (env : Host) (d : Vdev) (r : IsReady d) where
  pub replied :
      (payload : Payload) (d' : Vdev) → Shares d d' → IsCounted (vhost_reply env.sent payload d').0
  replied payload d' s = IsCounted-Shares d _ (reply-Shares env.sent payload d d' s) r.counted

  pub acked : (value : ℕ) (d' : Vdev) → Shares d d' → IsCounted (vhost_ack env.sent value d').0
  acked value d' s = IsCounted-Shares d _ (ack-any env.sent value d d' s) r.counted

  pub shared : (d' : Vdev) → Shares d d' → IsCounted d'
  shared d' s = IsCounted-Shares d d' s r.counted

pub on_vrings-Shares :
    (f : Vring → Vring) (d : Vdev) → ((v : Vring) → key (f v) ≡ key v) → Shares d (on_vrings f d)
on_vrings-Shares f d same = record {
  keys = λ i.
      if-elim {A = Vring} (λ w. key w ≡ key (d.vring i)) (ltb i d.num_queues)
        (λ _. same (d.vring i)) (λ _. refl);
  queues = refl;
  started = refl;
  flying = refl;
  handling = refl;
}

pub get_protocol_features-Keeps : Keeps get_protocol_features
get_protocol_features-Keeps env msg d r =
    if-elim (Holds IsCounted) (has_fds msg) (λ _. r.counted)
      (λ _. replied env d r (u64 d.supported_protocol_features) d (Shares-refl d))

pub set_protocol_features-Keeps : Keeps set_protocol_features
unfolding set_protocol_features
set_protocol_features-Keeps env msg d r =
    if-elim (Holds IsCounted) (has_fds msg || ltb msg.size u64_size) (λ _. r.counted)
      (λ _.
        if-elim (Holds IsCounted) (ltb 0 d.num_vrings_in_flight) (λ _. r.counted)
          (λ _.
            if-elim (Holds IsCounted) (ltb 0 (and_not msg.body.u64 d.supported_protocol_features))
              (λ _. r.counted)
              (λ _.
                acked env d r 0 (record d { negotiated_protocol_features = msg.body.u64 })
                  (Shares-fields d _ refl refl refl refl refl))))

pub get_features-Keeps : Keeps get_features
get_features-Keeps env msg d r =
    if-elim (Holds IsCounted) (has_fds msg) (λ _. r.counted)
      (λ _. replied env d r _ _ (Shares-fields d _ refl refl refl refl refl))

pub set_features-Keeps : Keeps set_features
unfolding set_features
set_features-Keeps env msg d r =
    if-elim (Holds IsCounted) (has_fds msg || ltb msg.size u64_size) (λ _. r.counted)
      (λ _.
        if-elim (Holds IsCounted) (ltb 0 (and_not msg.body.u64 d.supported_features))
          (λ _. r.counted)
          (λ _.
            if-elim (Holds IsCounted) (d.num_vrings_in_flight == 0) (λ _. chosen)
              (λ _.
                if-elim (Holds IsCounted)
                  (ltb 0 (and_not (bit_xor d.negotiated_features msg.body.u64) (2 ^ 26)))
                  (λ _. r.counted)
                  (λ _. handle_msg_all-IsCounted toggled (IsReady-Shares d toggled logged r)))))
  where
    named : Vdev
    named = record d { negotiated_features = msg.body.u64 }

    chosen :
        IsCounted
          (complete env.os env.sent features_complete
            (on_vrings (feature_vring msg.body.u64) named)).0
    chosen =
        IsCounted-Shares d _
          (Shares-trans d (on_vrings (feature_vring msg.body.u64) named) _
            (Shares-trans d named _ (Shares-fields d named refl refl refl refl refl)
              (on_vrings-Shares (feature_vring msg.body.u64) named (λ v. refl)))
            (complete-any env.os env.sent features_complete
              (on_vrings (feature_vring msg.body.u64) named)))
          r.counted

    toggled : Vdev
    toggled = record (update_shadow_vq_memlog named) { handle_complete = some features_complete }

    logged : Shares d toggled
    logged =
        Shares-trans d (update_shadow_vq_memlog named) toggled
          (Shares-trans d named _ (Shares-fields d named refl refl refl refl refl)
            (on_vrings-Shares (set_log (used_log named)) named (λ v. refl)))
          (Shares-fields _ toggled refl refl refl refl refl)

pub set_owner-Keeps : Keeps set_owner
set_owner-Keeps env msg d r =
    if-elim (Holds IsCounted) (has_fds msg) (λ _. r.counted)
      (λ _. acked env d r 0 d (Shares-refl d))

pub get_queue_num-Keeps : Keeps get_queue_num
get_queue_num-Keeps env msg d r =
    if-elim (Holds IsCounted) (has_fds msg) (λ _. r.counted)
      (λ _. replied env d r (u64 d.num_queues) d (Shares-refl d))

pub get_max_mem_slots-Keeps : Keeps get_max_mem_slots
get_max_mem_slots-Keeps env msg d r =
    if-elim (Holds IsCounted) (has_fds msg) (λ _. r.counted)
      (λ _. replied env d r (u64 ram_slots_max) d (Shares-refl d))

pub get_config-Keeps : Keeps get_config
get_config-Keeps env msg d r =
    if-elim (Holds IsCounted)
      (has_fds msg || ltb msg.size config_hdr_size || ltb config_space_size msg.size)
      (λ _. r.counted) (λ _. replied env d r (config_reply env msg) d (Shares-refl d))

use_memlog-IsCounted :
    (env : Host) (d : Vdev) → IsReady d → (m : Option Memlog) → Holds IsCounted (use_memlog env d m)
use_memlog-IsCounted env d r none = r.counted
use_memlog-IsCounted env d r (some memlog) =
    let e = record d { old_memlog = d.memlog; memlog = some memlog } in
    finish_in_all-IsCounted env log_base_complete d (update_shadow_vq_memlog e) r (
      Shares-trans d e _ (Shares-fields d e refl refl refl refl refl)
        (on_vrings-Shares (set_log (used_log e)) e (λ v. refl)))

pub set_log_base-Keeps : Keeps set_log_base
unfolding set_log_base
set_log_base-Keeps env msg d r = from msg.fds
  where
    from : (fds : List ℕ) → Holds IsCounted (set_log_from env msg fds d)
    from [] = r.counted
    from (fd ∷ []) =
        if-elim (Holds IsCounted) (ltb msg.size log_size) (λ _. r.counted)
          (λ _. use_memlog-IsCounted env d r (env.memlog msg.body.log fd))
    from (fd ∷ other ∷ fds) = r.counted

inflight_mmap_region-Shares :
    (env : Host) (fd region_size n : ℕ) (d : Vdev)
    → Shares d (inflight_mmap_region env fd region_size n d).0
unfolding inflight_mmap_region
inflight_mmap_region-Shares env fd region_size n d = mapped (env.mmap fd (mul64 region_size n))
  where
    mapped : (answer : Result ℕ) → Shares d (map_regions region_size n d answer).0
    mapped (err e) = Shares-fields d _ refl refl refl refl refl
    mapped (ok buf) = record {
      keys = λ i.
          if-elim {A = Vring} (λ w. key w ≡ key (d.vring i)) (ltb i (min n d.num_queues))
            (λ _. refl) (λ _. refl);
      queues = refl;
      started = refl;
      flying = refl;
      handling = refl;
    }

pub get_inflight_fd-Keeps : Keeps get_inflight_fd
unfolding get_inflight_fd
get_inflight_fd-Keeps env msg d r =
    if-elim (Holds IsCounted) (has_fds msg || ltb msg.size inflight_size) (λ _. r.counted)
      (λ _.
        if-elim (Holds IsCounted) (ltb 0 d.num_vrings_in_flight) (λ _. r.counted)
          (λ _. created env.memfd))
  where
    info : InflightInfo
    info = msg.body.inflight_desc

    closed_fd : (fd : ℕ) (e : Vdev) → Shares d e → IsCounted (close_fd (some fd) e)
    closed_fd fd e s =
        shared env d r _ (Shares-trans d e _ s (Shares-fields e _ refl refl refl refl refl))

    answered :
        (fd : ℕ) (out : Vdev × Option Errno)
        → Shares d out.0
        → Holds IsCounted (reply_inflight env fd out)
    answered fd (e, some x) s = closed_fd fd e s
    answered fd (e, none) s = closed_fd fd _ (reply-Shares env.sent _ d e s)

    cut : (fd : ℕ) (t : Option Errno) → Holds IsCounted (fill_inflight env info fd d t)
    cut fd (some x) = closed_fd fd d (Shares-refl d)
    cut fd none =
        answered fd _
          (inflight_mmap_region-Shares env fd (inflight_buf_size info.queue_size) info.num_queues d)

    created : (answer : Result ℕ) → Holds IsCounted (create_inflight env info d answer)
    created (err x) = r.counted
    created (ok fd) =
        cut fd (env.truncate (mul64 (inflight_buf_size info.queue_size) info.num_queues))

pub set_inflight_fd-Keeps : Keeps set_inflight_fd
unfolding set_inflight_fd
set_inflight_fd-Keeps env msg d r = from msg.fds
  where
    info : InflightInfo
    info = msg.body.inflight_desc

    acknowledged :
        (out : Vdev × Option Errno) → Shares d out.0 → Holds IsCounted (ack_unless env out)
    acknowledged (e, some x) s = shared env d r e s
    acknowledged (e, none) s = acked env d r 0 e s

    from : (fds : List ℕ) → Holds IsCounted (set_inflight_from env msg fds d)
    from [] = r.counted
    from (fd ∷ []) =
        if-elim (Holds IsCounted) (ltb msg.size inflight_size) (λ _. r.counted)
          (λ _.
            if-elim (Holds IsCounted) (ltb 0 d.num_vrings_in_flight) (λ _. r.counted)
              (λ _.
                if-elim (Holds IsCounted) (not (info.mmap_offset == 0)) (λ _. r.counted)
                  (λ _.
                    if-elim (Holds IsCounted)
                      (not (
                        info.mmap_size
                        == mul64 (inflight_buf_size info.queue_size) info.num_queues))
                      (λ _. r.counted)
                      (λ _. acknowledged _ (
                        inflight_mmap_region-Shares env fd (inflight_buf_size info.queue_size)
                          info.num_queues d)))))
    from (fd ∷ other ∷ fds) = r.counted
