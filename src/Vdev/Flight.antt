-- ===== src/Vdev/Flight.antt =====
-- The requests of a vring that are in flight, as its request queue counts them:
-- vhd_vring_inc_in_flight and vhd_vring_dec_in_flight of vdev.c.
use yc_libvhost_server.Base.{◌==◌, if◌then◌else◌, add16, sub16, ℕ, suc, Bool, ◌&&◌, not}

-- The fields of `struct vhd_vring` that belong to the dataplane. `drained` counts the calls of
-- vring_mark_drained_bh that were handed to the control event loop.
pub record Flight : Type 0 where
  pub num_in_flight : ℕ
  pub num_in_flight_at_stop : ℕ
  pub started_in_rq : Bool
  pub drained : ℕ

abbrev pub inc_in_flight : Flight → Flight
inc_in_flight v = record v { num_in_flight = add16 v.num_in_flight 1 }

abbrev pub dec_in_flight : Flight → Flight
dec_in_flight v =
    let num = sub16 v.num_in_flight 1 in
    if (num == 0) && not v.started_in_rq
    then record v { num_in_flight = num; drained = suc v.drained }
    else record v { num_in_flight = num }
