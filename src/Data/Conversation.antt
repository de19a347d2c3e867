-- ===== src/Data/Conversation.antt =====
-- axrl/data/conversation.py and axrl/data/generation.py: the messages of a conversation, and what
-- is sent to and returned by a generation worker. A text is its list of code points. Of the fields
-- that a rollout only passes on (tools, sampling, timing, extra keys) none is here.
use axrl.Prelude.{ℕ, Bool, Option, List, [], ◌∷◌, ◌++◌}
use axrl.Data.Sample.{Float, TensorHandle}

abbrev pub Text : Type 0
Text = List ℕ

pub record MessagePart : Type 0 where
  pub image : Option Text
  pub text : Option Text

pub data Content : Type 0 where
  text : Text → Content
  parts : List MessagePart → Content

pub data Role : Type 0 where
  user assistant system tool : Role

pub record ToolCall : Type 0 where
  pub id : Text
  pub index : ℕ
  pub name : Text
  pub arguments : Text

pub record Message : Type 0 where
  pub role : Role
  pub content : Content
  pub tool_calls : Option (List ToolCall)
  pub tool_call_id : Option Text

pub record GenerationState : Type 0 where
  pub input_ids : Option (List ℕ)
  pub capture_routing : Bool
  pub captured_routing_rows : ℕ

pub record Conversation : Type 0 where
  pub messages : List Message
  pub gen_state : GenerationState

unfoldable pub add_message : Conversation → Message → Conversation
add_message c message = record c { messages = c.messages ++ message ∷ [] }

pub record GenerationInput : Type 0 where
  pub input_ids : List ℕ
  pub routed_expert_start_index : ℕ

pub record GenerationOutput : Type 0 where
  pub output_ids : List ℕ
  pub output_logprobs : List Float
  pub output_text : Text
  pub assistant_boundary_token_id : Option ℕ
  pub tool_calls : Option (List ToolCall)
  pub routing_handle : Option TensorHandle
