-- ===== src/Providers/Ollama.antt =====
-- pkg/infrastructure_layer/provider/drivers/ollama/ollama_provider.go. As in the other driver, a call
-- reads the whole body of an answer or fails, and a stream's reader keeps up and does not cancel.
mod Server
mod Chat
unfoldable pub use Server.*
unfoldable pub use Chat.*
