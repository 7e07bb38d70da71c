-- ===== src/Error.antt =====
-- The errors of src/lib.rs and src/device/socket/error.rs, and calls that return, fail or panic.
use virtio_drivers_and_devic.Prelude.{ℕ, Bool, true, false, Option, none, some}

-- `SocketError`
pub data SocketError : Type 0 where
  connection_exists not_connected peer_socket_shutdown buffer_too_short : SocketError
  output_buffer_too_short : ℕ → SocketError
  buffer_too_long : ℕ → ℕ → SocketError
  unknown_operation : ℕ → SocketError
  invalid_operation invalid_number unexpected_data_in_packet : SocketError
  insufficient_buffer_space_in_peer recycled_wrong_buffer : SocketError

-- `Error`
pub data Error : Type 0 where
  queue_full not_ready wrong_token already_used invalid_param dma_error io_error : Error
  unsupported config_space_too_small config_space_missing : Error
  socket_device_error : SocketError → Error
  invalid_descriptor : Error

-- What a call of a function with `&mut` state comes to: a value or an `Err`, with the state it
-- leaves behind, or a panic (a failed assertion, an index out of range, an `unwrap` of `None`).
pub data Run {ℓ κ} (W : Type ℓ) (A : Type κ) : Type (ℓ ⊔ κ) where
  ok : A → W → Run W A
  err : Error → W → Run W A
  panic : Run W A

abbrev pub Cmd {ℓ κ} : Type ℓ → Type κ → Type (ℓ ⊔ κ)
Cmd W A = W → Run W A

abbrev pub pure {ℓ κ} : {W : Type ℓ} {A : Type κ} → A → Cmd W A
pure = ok

abbrev pub and_then {ℓ κ μ} :
    {W : Type ℓ} {A : Type κ} {B : Type μ} → Run W A → (A → Cmd W B) → Run W B
and_then (ok a w) k = k a w
and_then (err e w) k = err e w
and_then panic k = panic

infixl 5 ◌>>=◌ ◌>>◌
abbrev pub ◌>>=◌ {ℓ κ μ} :
    {W : Type ℓ} {A : Type κ} {B : Type μ} → Cmd W A → (A → Cmd W B) → Cmd W B
m >>= k = λ w. and_then (m w) k

abbrev pub ◌>>◌ {ℓ κ} : {W : Type ℓ} {B : Type κ} → Cmd W (Unit {0}) → Cmd W B → Cmd W B
m >> n = m >>= λ _. n

-- `self`
abbrev pub get {ℓ} : {W : Type ℓ} → Cmd W W
get w = ok w w

abbrev pub put {ℓ} : {W : Type ℓ} → W → Cmd W (Unit {0})
put w _ = ok tt w

-- `return Err(e)`
abbrev pub fail {ℓ κ} : {W : Type ℓ} {A : Type κ} → Error → Cmd W A
fail e w = err e w

-- `assert!`
abbrev pub assert {ℓ} : {W : Type ℓ} → Bool → Cmd W (Unit {0})
assert true w = ok tt w
assert false w = panic

-- `unwrap`, `expect`, and an index that is checked
abbrev pub unwrap {ℓ κ} : {W : Type ℓ} {A : Type κ} → Option A → Cmd W A
unwrap (some a) w = ok a w
unwrap none w = panic
