-- ===== src/Providers/Drivers.antt =====
-- pkg/infrastructure_layer/provider/drivers: the two drivers behind the interface, as their `init`
-- functions register them.
use lucinda.Base.{lit, [], Result, failed, gave, none, some}
use lucinda.Hardware.{GpuSnapshot}
use lucinda.Planner.{Provider, ChatRequest}
use lucinda.Providers.Wire.{
  ProviderConfig, ProviderHealth, ChatResponse, DriverError, Net, ProviderOps, max_context_tokens,
  max_context_tokens_pos,
}
use lucinda.Providers.Vllm
use lucinda.Providers.Ollama
use lucinda.Providers.Controller.{Registry, register_driver}

pub data Driver : Type 0 where
  vllm : Vllm.Vllm → Driver
  ollama : Ollama.Ollama → Driver

-- What the drivers are given from outside.
pub record Outside : Type 0 where
  pub net : Net
  pub vllm_codec : Vllm.Codec
  pub ollama_codec : Ollama.Codec

abbrev pub config_of : Driver → ProviderConfig
config_of (vllm p) = p.config
config_of (ollama p) = p.config

module _ (out : Outside) where
  abbrev pub driver_gpu : Driver → Result DriverError GpuSnapshot
  driver_gpu (vllm p) = Vllm.gpu out.vllm_codec out.net p
  driver_gpu (ollama p) = Ollama.gpu out.ollama_codec out.net p

  abbrev pub driver_health : Driver → Driver × ProviderHealth
  driver_health (vllm p) = let (p', h) = Vllm.health out.net p in (vllm p', h)
  driver_health (ollama p) = let (p', h) = Ollama.health out.net p in (ollama p', h)

  abbrev pub driver_generate : Driver → ChatRequest → Driver × Result DriverError ChatResponse
  driver_generate (vllm p) req =
      let (p', r) = Vllm.generate out.vllm_codec out.net p req in (vllm p', r)
  driver_generate (ollama p) req =
      let (p', r) = Ollama.generate out.ollama_codec out.net p req in (ollama p', r)

  abbrev pub driver_ops : ProviderOps Driver
  driver_ops = record {
    models = λ d. (config_of d).models;
    window = λ d. max_context_tokens (config_of d);
    gpu = driver_gpu;
    health = driver_health;
    generate = driver_generate;
    window_pos = λ d. max_context_tokens_pos (config_of d);
  }

  abbrev pub make_vllm : ProviderConfig → Result DriverError Driver
  make_vllm c = elim (Vllm.new_vllm_provider out.net c) [
    | failed e ↦ failed e
    | gave p ↦ gave (vllm p)
  ]

  abbrev pub make_ollama : ProviderConfig → Result DriverError Driver
  make_ollama c = elim (Ollama.new_ollama_provider out.net c) [
    | failed e ↦ failed e
    | gave p ↦ gave (ollama p)
  ]

  unfoldable pub registry : Registry Driver
  unfolding register_driver
  registry = register_driver (lit "vllm") make_vllm (register_driver (lit "ollama") make_ollama [])

  -- The provider as the planner, the reducer and the executor see it in one step.
  unfoldable pub as_provider : Driver → Provider
  as_provider d = record {
    models = (config_of d).models;
    max_context_tokens = max_context_tokens (config_of d);
    generate = λ req. elim (driver_generate d req).1 [ failed e ↦ none | gave r ↦ some r.message ];
  }
