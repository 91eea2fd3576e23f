-- ===== src/Stomp/Frame.antt =====
-- What the package uses of github.com/go-stomp/stomp/v3 and its `frame` package: commands, header
-- names and versions by their constants' names; `frame.Header` and `ParseHeartBeat` as a parameter.
use transport_go.Prelude.{ℕ, String, Option, List}

pub data Command : Type 0 where
  connect stomp disconnect send subscribe unsubscribe message : Command
  connected_command receipt_command error_command : Command
  other_command : String → Command

pub data HeaderName : Type 0 where
  receipt accept_version heart_beat id destination transaction subscription ack : HeaderName

pub data Version : Type 0 where
  v10 v11 v12 : Version

-- `contains` is `Header.Contains`, `add` appends (a name keeps its first value), `del` deletes.
-- `parse_heart_beat` gives two durations in nanoseconds, or `none` for its error.
pub record FrameLib : Type 1 where
  pub Header : Type 0
  pub contains : Header → HeaderName → Option String
  pub add : Header → HeaderName → String → Header
  pub del : Header → HeaderName → Header
  pub parse_heart_beat : String → Option (ℕ × ℕ)

-- `message_id` stands for the header of that name, whose text is the number in decimal.
pub record Frame (H : Type 0) : Type 0 where
  pub command : Command
  pub header : H
  pub message_id : Option ℕ
  pub body : List ℕ
