-- ===== src/Driver/Device.antt =====
-- EGoEvtDeviceAdd: the steps by which a device comes up, each of which may end it. What the
-- framework's calls return is a parameter.
use ego_touch_rev.Prelude.{◌≡◌, arith, Bool, true, false, ◌&&◌, Option, none, some, if◌then◌else◌}
use ego_touch_rev.Driver.{NtStatus, success, nt_success, DeviceContext}

pub record DeviceCalls : Type 0 where
  pub assign_name : NtStatus
  pub create : NtStatus
  pub create_symbolic_link : NtStatus
  pub queue_create : NtStatus

-- What has been set up: WDF_IO_QUEUE_CONFIG's default queue serves EGoEvtIoDeviceControl.
pub record Device : Type 0 where
  pub named : Bool
  pub created : Bool
  pub linked : Bool
  pub context : Option DeviceContext
  pub queue : Bool

abbrev pub no_device : Device
no_device = record { named = false; created = false; linked = false; context = none; queue = false }

-- RtlZeroMemory on the context; STATUS_SUCCESS is 0.
abbrev pub zeroed : DeviceContext
zeroed = record {
  last_status = success;
  last_afe_command = record { command = 0; param = 0; reserved = (0, 0) };
}

unfoldable pub evt_device_add : DeviceCalls → NtStatus × Device
evt_device_add calls =
    if nt_success calls.assign_name
    then (let named = record no_device { named = true } in
        if nt_success calls.create
        then (let created = record named { created = true } in
            if nt_success calls.create_symbolic_link
            then (let ready = record created { linked = true; context = some zeroed } in
                if nt_success calls.queue_create
                then (success, record ready { queue = true })
                else (calls.queue_create, ready))
            else (calls.create_symbolic_link, created))
        else (calls.create, named))
    else (calls.assign_name, no_device)

-- Adding the device succeeds exactly when all four framework calls do. A queue serves requests only
-- after success, and then on a named, linked device whose context is zeroed.
pub evt_device_add_lem :
    (calls : DeviceCalls)
    → let (status, device) = evt_device_add calls in
      (nt_success status ≡ (
        nt_success calls.assign_name
        && (nt_success calls.create
            && (nt_success calls.create_symbolic_link && nt_success calls.queue_create))))
      × (device.queue ≡ nt_success status)
      × (device.queue ≡ true
          → (device.named ≡ true) × (device.linked ≡ true) × (device.context ≡ some zeroed))
unfolding evt_device_add
evt_device_add_lem calls = ground arith
