-- ===== src/Cim.antt =====
-- src/cim_service.c: the driver for the services of a CIM server. The answers of libcimc are a
-- parameter.
pub mod Jobs
pub mod Codes
pub mod Round
pub mod Stale
use pacemaker_cloud.Common.{
  ℕ, ◌+◌, Bool, true, false, ◌&&◌, Option, none, some, String, ℤ, pos, minus_one, is_zero, Result,
  ok, fault, assert_failed, null_pointer, use_after_free, double_free, uninitialised_read, ◌>>=◌,
  ◌==◌, if◌then◌else◌,
}

-- `CIMCData`, with the types that are looked at; a `CIMCBoolean` is an unsigned byte.
pub data CimcData : Type 0 where
  cimc_boolean cimc_uint32 : ℕ → CimcData
  cimc_other : CimcData

-- What libcimc answers. `new_env`, `connect` and `new_object_path` are whether there is a result, and
-- `new_string` is the code that the status has then; a property or a method gives its data, and the
-- code of the status. `log_survives` is whether reading the argument that the format of a message
-- lacks is harmless.
pub record Cimc : Type 0 where
  pub new_env : Bool
  pub connect : Option String → Bool
  pub new_object_path : Bool
  pub new_string : String → ℕ
  pub log_survives : Bool
  pub get_property : String → String → CimcData × ℕ
  pub invoke_method : String → String → CimcData × ℕ

-- `env` is whether `ce` was made; `in_use` are the clients that were made and not released, and the next is
-- `next_client`.
pub record Clients : Type 0 where
  pub env : Bool
  pub in_use : ℕ → Bool
  pub next_client : ℕ

abbrev pub flag : ℕ → Bool → (ℕ → Bool) → ℕ → Bool
flag c b f n = if c == n then b else f n

-- Calling a function of a client.
abbrev pub use_client : ℕ → Clients → Result ℕ
use_client c s = if s.in_use c then ok c else fault use_after_free

abbrev pub not_null : Option ℕ → Result ℕ
not_null none = fault assert_failed
not_null (some c) = ok c

-- The data on the stack, read where it was written.
abbrev pub data_written : Option CimcData → Result CimcData
data_written none = fault uninitialised_read
data_written (some d) = ok d

abbrev pub started_of : CimcData → ℤ
started_of (cimc_boolean b) = pos b
started_of (cimc_uint32 n) = minus_one
started_of cimc_other = minus_one

abbrev pub invoked : CimcData × ℕ → ℤ
invoked (cimc_uint32 n, rc) = if (rc == 0) && (n == 0) then pos 0 else minus_one
invoked (cimc_boolean b, rc) = minus_one
invoked (cimc_other, rc) = minus_one

abbrev pub property_of : CimcData × ℕ → ℤ × Option CimcData
property_of (d, rc) = (if rc == 0 then pos 0 else minus_one, some d)

module _ (lib : Cimc) where
  abbrev new_client : Option String → Clients → Clients × Option ℕ
  new_client server s =
      if lib.connect server
      then (
        record s { in_use = flag s.next_client true s.in_use; next_client = s.next_client + 1 },
        some s.next_client,
      )
      else (s, none)

  unfoldable pub cim_service_connect : Option String → Clients → Clients × Option ℕ
  cim_service_connect server s =
      if s.env
      then new_client server s
      else if lib.new_env
      then new_client server (record s { env = true })
      else (s, none)

  -- Whether there is a path. The object path itself is leaked where the string fails.
  unfoldable pub create_object_path : Clients → String → Result Bool
  create_object_path s service =
      if s.env
      then (if lib.new_string service == 0
          then (if lib.new_object_path then ok true else fault null_pointer)
          else if lib.log_survives
          then ok false
          else fault uninitialised_read)
      else fault null_pointer

  unfoldable pub service_get_property : Clients → ℕ → String → String → Result (ℤ × Option CimcData)
  unfolding create_object_path
  service_get_property s client service property = do
    path ← create_object_path s service
    if path
        then (use_client client s >>= λ _. ok (property_of (lib.get_property service property)))
        else ok (pos 0, none)

  unfoldable pub cim_service_started : Clients → Option ℕ → String → Result ℤ
  unfolding service_get_property
  cim_service_started s transport service = do
    client ← not_null transport
    answer ← service_get_property s client service "Started"
    if is_zero answer.0 then (data_written answer.1 >>= λ d. ok (started_of d)) else ok minus_one

  unfoldable pub service_set_enabled : Clients → ℕ → String → Bool → Result ℤ
  unfolding create_object_path
  service_set_enabled s client service enabled = do
    path ← create_object_path s service
    if path
        then (use_client client s >>= λ _. ok (
            invoked
              (lib.invoke_method service (if enabled then "StartService" else "StopService"))))
        else ok minus_one

  unfoldable pub cim_service_start : Clients → Option ℕ → String → Result ℤ
  unfolding service_set_enabled
  cim_service_start s transport service = do
    client ← not_null transport
    service_set_enabled s client service true

  unfoldable pub cim_service_stop : Clients → Option ℕ → String → Result ℤ
  unfolding service_set_enabled
  cim_service_stop s transport service = do
    client ← not_null transport
    service_set_enabled s client service false

-- Releasing a client that was released is a second release.
unfoldable pub cim_service_disconnect : Option ℕ → Clients → Result Clients
cim_service_disconnect transport s = do
  client ← not_null transport
  if s.in_use client
      then ok (record s { in_use = flag client false s.in_use })
      else fault double_free
