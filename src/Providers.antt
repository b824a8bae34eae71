-- ===== src/Providers.antt =====
-- pkg/infrastructure_layer/provider: the drivers of the inference servers, and the controller.
pub mod Wire
pub mod Vllm
pub mod Ollama
pub mod Controller
pub mod Drivers
pub mod Content
pub mod Choice
