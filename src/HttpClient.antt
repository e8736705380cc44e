-- ===== src/HttpClient.antt =====
-- http_connection.hpp and http_connection.cpp: the client side of an HTTP connection, which sends
-- requests without waiting and gives each response to the callback that waits longest.
--
-- A user callback is a number, and `called` says in which order callbacks were issued and with which
-- response. `none` stands for std::out_of_range from the parser, which nothing catches, and for a NULL
-- that is used. The calls under `m_response_` and `m_write_` are one step.
pub mod Messages
pub mod Receive
mod Tests
use multicore_programming_la.Common.{
  ℕ, zero, suc, Bool, true, false, Option, none, some, List, [], ◌∷◌, ◌++◌,
}
use multicore_programming_la.Buffer.{Chunk, Buffer, consume}
use multicore_programming_la.Buffer.Iterator.{begin, eob}
use multicore_programming_la.HttpParser.{
  done, incomplete_input, error_in_request, out_of_range, out_of_fuel, Request, Response, to_buffer,
  iterator, parse_response,
}
use multicore_programming_la.Connection.{
  Connection, WriteResult, ConnectResult, start_read, start_write, start_connect,
}

-- What a callback is issued with: a response, or the connection itself.
pub data Issued : Type 0 where
  response_to : ℕ → Response → Issued
  connect_done : ℕ → Issued

pub record Client : Type 0 where
  pub connection : Connection
  pub connect_cb : ℕ
  pub response_cbs : List ℕ
  pub called : List Issued

abbrev pub with_in : Buffer → Client → Client
with_in b c = record c { connection = record (c.connection) { in_ = b } }

-- The front of the queue is popped and issued; the response of an empty queue is dropped.
unfoldable pub issue : List ℕ → Response → Client → Client
issue [] r c = c
issue (cb ∷ cbs) r c = record c { response_cbs = cbs; called = c.called ++ response_to cb r ∷ [] }

unfoldable pub handle_response : Response → Client → Client × Bool
unfolding issue
handle_response r c = (issue c.response_cbs r c, true)

module _ (raw : Chunk) where
  -- `while (true)`; the first fuel is for a call of the parser.
  unfoldable pub response_rounds : ℕ → ℕ → Client → Option (Client × Bool)
  response_rounds fuel zero c = none
  response_rounds fuel (suc rounds) c =
      let b = c.connection.in_ in
      let v = parse_response (iterator raw) fuel (begin raw b) in
      elim v.0 [
        | error_in_request ↦ some (c, false)
        | incomplete_input ↦ some (c, true)
        | out_of_range ↦ none
        | out_of_fuel ↦ none
        | done ↦ elim (consume v.1.place.bytes_read b) [
          | none ↦ none
          | some b' ↦
              let (c', more) = handle_response v.1.result (with_in b' c) in
              elim more [
                | false ↦ some (c', false)
                | true ↦ elim (eob (record (v.1.place) { buffer = b' })) [
                  | true ↦ some (c', true)
                  | false ↦ response_rounds fuel rounds c'
                ]
              ]
        ]
      ]

  -- `readDone`
  unfoldable pub read_done : ℕ → Client → Option (Client × Bool)
  unfolding response_rounds
  read_done fuel c = response_rounds fuel fuel c

  -- `asyncSend`, and what the socket answers to the write that it starts.
  unfoldable pub async_send : Request → ℕ → List WriteResult → Client → Option Client
  async_send request cb answers c = elim (to_buffer raw request c.connection.out_) [
    | none ↦ none
    | some out ↦ elim (start_write raw answers (record (c.connection) { out_ = out })) [
      | none ↦ none
      | some connection ↦
          some (record c { connection = connection; response_cbs = c.response_cbs ++ cb ∷ [] })
    ]
  ]

-- `connDone`
unfoldable pub conn_done : Client → Option Client
conn_done c = elim c.connection.in_error [
  | true ↦ some (record c { called = c.called ++ connect_done c.connect_cb ∷ [] })
  | false ↦ elim (start_read c.connection) [
    | none ↦ none
    | some connection ↦
        some (record c {
          connection = connection;
          called = c.called ++ connect_done c.connect_cb ∷ [];
        })
  ]
]
