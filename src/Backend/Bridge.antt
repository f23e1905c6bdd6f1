-- ===== src/Backend/Bridge.antt =====
-- src/backend/bridge.rs: the errors and exits of a bridge, its connection to a backend in
-- `Connect`, the login there in `Login`, and the life of the bridge in `Run`.
pub mod Connect
pub mod Login
pub mod Run
pub mod Inject
pub mod Sample
use vine.Base.{List, [], ◌∷◌, ◌++◌, Option, none, some, Text, codes, ℕ}

-- An error of the socket as the system prints it, or one that the bridge makes.
pub data IoError : Type 0 where
  system : Text → IoError
  timed_out : ℕ → IoError
  connection_refused : IoError

pub data BridgeError : Type 0 where
  connect_failed : Text → IoError → BridgeError
  io_error : IoError → BridgeError
  decode_error : Text → BridgeError
  encode_error : Text → BridgeError
  login_timeout : Text → BridgeError
  login_disconnected : Text → BridgeError
  velocity_error : Text → BridgeError
  vine_error : Text → BridgeError

module _ (show_number : ℕ → Text) where
  pub show_io : IoError → Text
  show_io (system text) = text
  show_io (timed_out secs) = codes "Connection timed out after " ++ show_number secs ++ codes "s"
  show_io connection_refused = codes "Failed to connect"

  -- `to_string`
  pub show_error : BridgeError → Text
  unfolding show_io
  show_error (connect_failed name e) =
      codes "Failed to connect to backend server '" ++ name ++ codes "': " ++ show_io e
  show_error (io_error e) = codes "Backend communication error: " ++ show_io e
  show_error (decode_error text) = codes "Packet decode error: " ++ text
  show_error (encode_error text) = codes "Packet encode error: " ++ text
  show_error (login_timeout name) = codes "Backend server '" ++ name ++ codes "' login timed out"
  show_error (login_disconnected text) = codes "Backend disconnected player during login: " ++ text
  show_error (velocity_error text) = codes "Velocity forwarding error: " ++ text
  show_error (vine_error text) = codes "Vine forwarding error: " ++ text

pub data TunnelExit : Type 0 where
  client_disconnected : TunnelExit
  connect_to : Text → TunnelExit
  transfer_to : Text → ℕ → TunnelExit
  backend_disconnected : Option Text → TunnelExit
