-- ===== src/Blk/Device/ConfigSpace.antt =====
-- Reads of the configuration space: virtio_blk_get_config of virtio/virtio_blk.c.
use yc_libvhost_server.Base.{
  leb, Bool-cases, take-[], length-take, length-drop, take-min, drop-past, drop-drop,
  take-append-take, length, take, drop, ℕ, ◌+◌, ◌-◌, min, ◌≡◌, refl, sym, ap, ◌∙◌, inl, inr, List,
  ◌++◌, arith,
}
use yc_libvhost_server.Blk.Device.{Config, Dev, le_bytes, config_size, get_config, config_bytes}

config_bytes-length : (config : Config) → length (config_bytes config) ≡ config_size
unfolding config_bytes le_bytes
config_bytes-length config = refl

-- What a read gets: the bytes from the offset on, as far as the buffer and the configuration go.
get_config-window :
    (dev : Dev) (bufsize offset : ℕ)
    → get_config dev bufsize offset ≡ take bufsize (drop offset (config_bytes dev.config))
unfolding get_config
get_config-window dev bufsize offset = elim (Bool-cases (leb config_size offset)) [
  | inl past ↦ rw (past) (
      sym (take-[] bufsize)
      ∙ ap (take bufsize)
          (sym (drop-past offset bytes (ground (arith, config_bytes-length dev.config)))))
  | inr inside ↦ rw (inside) (
      ap (λ n. take (min bufsize n) (drop offset bytes)) left
      ∙ take-min bufsize (drop offset bytes))
]
  where
    bytes : List ℕ
    bytes = config_bytes dev.config

    left : config_size - offset ≡ length (drop offset bytes)
    left = omega (arith, length-drop offset bytes, config_bytes-length dev.config)

-- A read gets as many bytes as the buffer takes and the configuration has from the offset on.
pub get_config-length :
    (dev : Dev) (bufsize offset : ℕ)
    → length (get_config dev bufsize offset) ≡ min bufsize (config_size - offset)
get_config-length dev bufsize offset =
    ap length (get_config-window dev bufsize offset)
    ∙ omega (
      arith,
      length-take bufsize (drop offset (config_bytes dev.config)),
      length-drop offset (config_bytes dev.config),
      config_bytes-length dev.config,
    )

-- Two reads in a row get what one read gets.
get_config-append :
    (dev : Dev) (first second offset : ℕ)
    → get_config dev first offset ++ get_config dev second (offset + first)
      ≡ get_config dev (first + second) offset
get_config-append dev first second offset =
    rw
      (
        get_config-window dev first offset,
        get_config-window dev second (offset + first),
        get_config-window dev (first + second) offset,
        sym (drop-drop offset first (config_bytes dev.config)),
      )
      (take-append-take first second (drop offset (config_bytes dev.config)))
