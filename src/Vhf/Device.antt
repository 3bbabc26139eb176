-- ===== src/Vhf/Device.antt =====
-- The handle of the injector device, the writes to it, and the three entry points.
use ego_touch_rev.Prelude.{
  ℕ, List, [], ◌∷◌, Bool, true, false, not, ◌||◌, ◌&&◌, ◌==◌, Option, none, some, if◌then◌else◌,
  length,
}
use ego_touch_rev.Engine.{TouchContact}
use ego_touch_rev.Vhf.{
  Scale, Packet, empty_packet, build_touch_reports, apply_stylus_post_transform,
}

-- The system's calls on the device: `open_interface` is the enumeration's next interface, with the
-- outcome of its detail request and CreateFile, or `none` after the last one; `write_file` tells
-- whether all bytes were written.
pub data Interface : Type 0 where
  no_detail no_file opened : Interface

pub record VhfOs (W : Type 0) : Type 0 where
  pub list_interfaces : W → Option (List Interface) × W
  pub write_file : List ℕ → W → Bool × W
  pub close_handle : W → W

pub record Reporter (W : Type 0) : Type 0 where
  pub enabled : Bool
  pub transpose : Bool
  pub had_touch_last_frame : Bool
  pub eraser_state : ℕ  -- uint8
  pub handle_open : Bool
  pub world : W

-- The loop of EnsureDeviceOpen over the interfaces: the first one that opens.
unfoldable pub find_interface : List Interface → Bool
find_interface [] = false
find_interface (opened ∷ rest) = true
find_interface (no_detail ∷ rest) = find_interface rest
find_interface (no_file ∷ rest) = find_interface rest

module _ {W : Type 0} (os : VhfOs W) where
  unfoldable pub ensure_device_open : Reporter W → Bool × Reporter W
  unfolding find_interface
  ensure_device_open r =
      if r.handle_open
      then (true, r)
      else (let (found, w) = os.list_interfaces r.world in
          elim found [
            | none ↦ (false, record r { world = w })
            | some interfaces ↦ (
              find_interface interfaces,
              record r { handle_open = find_interface interfaces; world = w },
            )
          ])

  -- CloseDevice, and so Close.
  unfoldable pub close_device : Reporter W → Reporter W
  close_device r =
      if r.handle_open then record r { handle_open = false; world = os.close_handle r.world } else r

  unfoldable pub reopen_device : Reporter W → Reporter W
  unfolding ensure_device_open close_device
  reopen_device r = (ensure_device_open (close_device r)).1

  -- A write that fails, or is short, opens the device anew and is not repeated.
  unfoldable pub write_packet : List ℕ → Reporter W → Bool × Reporter W
  unfolding reopen_device
  write_packet bytes r =
      if length bytes == 0
      then (false, r)
      else (let (ready, r1) = ensure_device_open r in
          if not ready
          then (false, r1)
          else (let (ok, w) = os.write_file bytes r1.world in
              let r2 = record r1 { world = w } in
              if ok then (true, r2) else (false, reopen_device r2)))

  unfoldable pub write_if : Bool → List ℕ → Reporter W → Reporter W
  unfolding write_packet
  write_if valid bytes r = if valid then (write_packet bytes r).1 else r

  -- What follows a frame without input: one report that lifts all contacts, behind the last touch.
  unfoldable pub all_up : Reporter W → Reporter W
  unfolding write_packet
  all_up r =
      if r.had_touch_last_frame
      then (let (ready, r1) = ensure_device_open (record r { had_touch_last_frame = false }) in
          if ready then (write_packet empty_packet.bytes r1).1 else r1)
      else r

  unfoldable pub dispatch_stylus : Packet → Reporter W → Reporter W
  unfolding write_packet
  dispatch_stylus packet r =
      if not r.enabled || not packet.valid
      then r
      else (let (ready, r1) = ensure_device_open r in
          if ready
          then (write_packet (apply_stylus_post_transform r1.eraser_state packet.bytes) r1).1
          else r1)

  module _ {F : Type 0} (fs : Scale F) where
    unfoldable pub dispatch_touch : List (TouchContact F) → Reporter W → Reporter W
    unfolding all_up write_if
    dispatch_touch contacts r =
        if not r.enabled
        then r
        else (let (first, second) = build_touch_reports fs r.transpose contacts in
            if not (first.valid || second.valid)
            then all_up r
            else (let (ready, r1) = ensure_device_open (record r { had_touch_last_frame = true }) in
                if ready
                then write_if second.valid second.bytes (write_if first.valid first.bytes r1)
                else r1))

    -- Dispatch: both kinds of input in one call.
    unfoldable pub dispatch : List (TouchContact F) → Packet → Reporter W → Reporter W
    unfolding all_up write_if
    dispatch contacts stylus r =
        if not r.enabled
        then r
        else (let (first, second) = build_touch_reports fs r.transpose contacts in
            if not (first.valid || second.valid) && not stylus.valid
            then all_up r
            else (let (ready, r1) = ensure_device_open (record r { had_touch_last_frame = true }) in
                if ready
                then (let r2 =
                      write_if second.valid second.bytes (write_if first.valid first.bytes r1) in
                    write_if stylus.valid (apply_stylus_post_transform r2.eraser_state stylus.bytes)
                      r2)
                else r1))
