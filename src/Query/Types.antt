-- ===== src/Query/Types.antt =====
-- The two translations between the library's event bits and the system's.
use net_port.Common.{
  false, ℕ, zero, suc, ◌<◌, ◌≡◌, refl, Bool, true, arith, ◌==◌, bit_and, bit_or, if◌then◌else◌,
}
use net_port.Query.{
  NativePoll, windows_poll, linux_poll, query_type_to_native, native_to_query_type,
}

-- Two translations give the same for the event bits below a bound.
agree : (ℕ → ℕ) → (ℕ → ℕ) → ℕ → Bool
agree f g zero = true
agree f g (suc bound) = let rest = agree f g bound in if f bound == g bound then rest else false

agree_lem : (f g : ℕ → ℕ) (bound type : ℕ) → type < bound → agree f g bound ≡ true → f type ≡ g type
unfolding agree
agree_lem f g zero type less h = absurd (omega arith)
agree_lem f g (suc bound) type less h = ground (arith, agree_lem f g bound type)

abbrev there_and_back : NativePoll → ℕ → ℕ
there_and_back n type = native_to_query_type n (query_type_to_native n type)

-- What comes back where one bit of the system stands for out-of-band data and for priority data.
abbrev pub joined : ℕ → ℕ
joined type = if bit_and type 12 == 0 then type else bit_or type 12

windows_table : agree (there_and_back windows_poll) (λ t. t) 16 ≡ true
unfolding agree native_to_query_type query_type_to_native
windows_table = refl

linux_table : agree (there_and_back linux_poll) joined 16 ≡ true
unfolding agree native_to_query_type query_type_to_native
linux_table = refl

-- Every set of the four conditions that can be asked for comes back from the system's bits: as it
-- was on Windows, and on Linux with out-of-band and priority data together if one was in it.
pub native_to_query_type-query_type_to_native :
    (type : ℕ)
    → type < 16
    → (native_to_query_type windows_poll (query_type_to_native windows_poll type) ≡ type)
      × (native_to_query_type linux_poll (query_type_to_native linux_poll type) ≡ joined type)
native_to_query_type-query_type_to_native type h = (
  agree_lem (there_and_back windows_poll) (λ t. t) 16 type h windows_table,
  agree_lem (there_and_back linux_poll) joined 16 type h linux_table,
)
