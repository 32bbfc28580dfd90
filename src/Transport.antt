-- ===== src/Transport.antt =====
-- network/transport: the two transports and their common interface. Sockets are those of Go's net package
-- and of kcp-go; what is set on a connection is recorded with it.
use noise.Base.{◌∷◌, Bool, Bytes, Result, err, false, ok, ℕ}

-- `Layer`: a listener of type `Ln` and a connection of type `C`.
pub record Layer (Ln C E : Type 0) : Type 0 where
  pub listen : ℕ → Result E Ln
  pub dial : Bytes → Result E C

-- ":" and the port.
unfoldable pub port_address : (ℕ → Bytes) → ℕ → Bytes
port_address itoa port = 58 ∷ itoa port

-- `TCP`.
pub record Tcp : Type 0 where
  pub write_buffer_size : ℕ
  pub read_buffer_size : ℕ
  pub no_delay : Bool

-- What `Dial` sets on a TCP connection.
pub record TcpConn (C : Type 0) : Type 0 where
  pub conn : C
  pub write_buffer : ℕ
  pub read_buffer : ℕ
  pub without_delay : Bool

-- The functions of net that TCP calls, with "tcp" as their network.
pub record TcpPackage (Ln R C E : Type 0) : Type 0 where
  pub listen_on : Bytes → Result E Ln
  pub resolve : Bytes → Result E R
  pub dial_resolved : R → Result E C

unfoldable pub new_tcp : Tcp
new_tcp = record { write_buffer_size = 10000; read_buffer_size = 10000; no_delay = false }

module _ {Ln R C E : Type 0} (go : TcpPackage Ln R C E) (itoa : ℕ → Bytes) where
  unfoldable pub listen_tcp : Tcp → ℕ → Result E Ln
  unfolding port_address
  listen_tcp t port = elim (go.listen_on (port_address itoa port)) [
    | err e ↦ err e
    | ok listener ↦ ok listener
  ]

  unfoldable pub dial_tcp : Tcp → Bytes → Result E (TcpConn C)
  dial_tcp t address = elim (go.resolve address) [
    | err e ↦ err e
    | ok resolved ↦ elim (go.dial_resolved resolved) [
      | err e ↦ err e
      | ok conn ↦ ok (record {
        conn = conn;
        write_buffer = t.write_buffer_size;
        read_buffer = t.read_buffer_size;
        without_delay = t.no_delay;
      })
    ]
  ]

  unfoldable pub tcp_layer : Tcp → Layer Ln (TcpConn C) E
  unfolding listen_tcp dial_tcp
  tcp_layer t = record { listen = listen_tcp t; dial = dial_tcp t }

-- `KCP`.
pub record Kcp : Type 0 where
  pub data_shards : ℕ
  pub parity_shards : ℕ
  pub send_window_size : ℕ
  pub recv_window_size : ℕ

-- What `Dial` sets on a KCP connection.
pub record KcpConn (C : Type 0) : Type 0 where
  pub conn : C
  pub send_window : ℕ
  pub recv_window : ℕ

-- The functions of kcp-go that KCP calls: an address, and the numbers of data and parity shards.
pub record KcpPackage (Ln C E : Type 0) : Type 0 where
  pub listen_with_options : Bytes → ℕ → ℕ → Result E Ln
  pub dial_with_options : Bytes → ℕ → ℕ → Result E C

unfoldable pub new_kcp : Kcp
new_kcp = record {
  data_shards = 0;
  parity_shards = 0;
  send_window_size = 10000;
  recv_window_size = 10000;
}

module _ {Ln C E : Type 0} (kcp : KcpPackage Ln C E) (itoa : ℕ → Bytes) where
  unfoldable pub listen_kcp : Kcp → ℕ → Result E Ln
  unfolding port_address
  listen_kcp t port =
      elim (kcp.listen_with_options (port_address itoa port) t.data_shards t.parity_shards) [
        | err e ↦ err e
        | ok listener ↦ ok listener
      ]

  unfoldable pub dial_kcp : Kcp → Bytes → Result E (KcpConn C)
  dial_kcp t address = elim (kcp.dial_with_options address t.data_shards t.parity_shards) [
    | err e ↦ err e
    | ok conn ↦
        ok (record {
          conn = conn;
          send_window = t.send_window_size;
          recv_window = t.recv_window_size;
        })
  ]

  unfoldable pub kcp_layer : Kcp → Layer Ln (KcpConn C) E
  unfolding listen_kcp dial_kcp
  kcp_layer t = record { listen = listen_kcp t; dial = dial_kcp t }
