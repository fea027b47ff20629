-- ===== src/Request.antt =====
-- chat2/src/openai.rs: the request of an attempt. Its JSON is printed by serde_json, and it is sent
-- by reqwest.
use beta_boot_git_ops.Config.{OpenAiConfig, from_secs}
use beta_boot_git_ops.Text.{codes}
use beta_boot_git_ops.Base.{ℕ, Bool, true, Option, none, some, List, ◌++◌, if◌then◌else◌, Text}

pub record Message : Type 0 where
  pub role : Text
  pub content : Text

abbrev pub message : Text → Text → Message
message role content = record { role = role; content = content }

pub record StreamOptions : Type 0 where
  pub include_usage : Bool

-- No `stream_options` in the JSON where there are none.
pub record ChatRequest : Type 0 where
  pub model : Text
  pub messages : List Message
  pub stream : Bool
  pub stream_options : Option StreamOptions

-- `post(&url).bearer_auth(..).json(&body)`.
pub record Post : Type 0 where
  pub url : Text
  pub bearer : Text
  pub body : ChatRequest

unfoldable pub request : OpenAiConfig → List Message → Post
request cfg messages = record {
  url = cfg.base_url ++ codes "/chat/completions";
  bearer = cfg.api_key;
  body = record {
    model = cfg.model;
    messages = messages;
    stream = true;
    stream_options = if cfg.request_usage then some (record { include_usage = true }) else none;
  };
}

-- The driver of an endpoint: its HTTP client, which is another library's, and its configuration.
pub record OpenAiCompatDriver (C : Type 0) : Type 0 where
  pub client : C
  pub cfg : OpenAiConfig

module _ {C : Type 0} where
  -- `.expect`: nothing where the client cannot be built, and the program panics.
  abbrev pub expect_client : Option C → OpenAiConfig → Option (OpenAiCompatDriver C)
  expect_client none cfg = none
  expect_client (some c) cfg = some (record { client = c; cfg = cfg })

  -- The client is built with the time that a connection may take, in nanoseconds.
  abbrev pub new : (ℕ → Option C) → OpenAiConfig → Option (OpenAiCompatDriver C)
  new build cfg = expect_client (build (from_secs 15)) cfg

  abbrev pub config : OpenAiCompatDriver C → OpenAiConfig
  config d = d.cfg
