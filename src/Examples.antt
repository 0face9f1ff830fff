-- ===== src/Examples.antt =====
-- Concrete data for the tests: an allocator, a request, a server with one function.
pub mod Messages
pub mod Service
pub mod Calling
pub mod CommandLine
pub mod Logging
pub mod Children
pub mod Threads
pub mod Processes
pub mod Defaults
pub mod Stopping
pub mod Serving
use remote_procedure_control.Prelude.{
  ℕ, ◌+◌, ◌^◌, ◌≡◌, ◌≤◌, ◌<◌, refl, arith, Bool, true, false, List, [], ◌∷◌, ltb, Option, none,
  some, length, All,
}
use remote_procedure_control.Prelude.Int.{ℤ, pos, negsuc}
use remote_procedure_control.Machine.{Bytes, IsText, int_max}
use remote_procedure_control.Machine.Words.{int_bytes}
use remote_procedure_control.RpcData.{Malloc, Site}
use remote_procedure_control.RpcData.Integer.Decimal.{
  integer_bytes, decimal_ℤ, decimal, digits_onto,
}
use remote_procedure_control.RpcData.Protocol.{
  Argument, number, text, void, Request, IsRequest, IsArgument, header, body, frame,
}
use remote_procedure_control.RpcData.Deserialize.Accepts.{IsGranting}
use remote_procedure_control.RpcData.Deserialize.Faults.{IsRefusing}

-- Half of the address space is more than there is.
abbrev pub granted : Malloc
granted = λ s n. ltb n (2 ^ 63)

pub granted-IsGranting : IsGranting granted
granted-IsGranting s n h = ground arith

pub granted-IsRefusing : IsRefusing granted
granted-IsRefusing s n h = ground arith

-- "plus"
abbrev pub plus_name : Bytes
plus_name = b'p' ∷ b'l' ∷ b'u' ∷ b's' ∷ []

abbrev pub hello : Bytes
hello = b'h' ∷ b'e' ∷ b'l' ∷ b'l' ∷ b'o' ∷ []

abbrev pub two_numbers : List Argument
two_numbers = number (pos 42) ∷ number (negsuc 6) ∷ []

abbrev pub mixed : List Argument
mixed = text hello ∷ number (negsuc 6) ∷ void ∷ []

pub two_numbers-valid : All IsArgument two_numbers
two_numbers-valid = ((omega arith, λ h. cc), ((omega arith, λ h. cc), tt))

pub mixed-valid : All IsArgument mixed
mixed-valid = ((omega arith, omega arith), ((omega arith, λ h. cc), (tt, tt)))

abbrev pub plus_request : Request
plus_request = record { command = plus_name; return_type = 1; arguments = two_numbers }

pub plus_request-IsRequest : IsRequest plus_request
unfolding frame body header int_bytes integer_bytes decimal_ℤ decimal digits_onto
plus_request-IsRequest = record {
  command_text = omega arith;
  return_exists = omega arith;
  arguments_valid = two_numbers-valid;
  fits = omega arith;
}
