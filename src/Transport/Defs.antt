-- ===== src/Transport/Defs.antt =====
-- pkg/infrastructure_layer/transport/transporters/host.go: the maps of channels, and the methods that
-- change them under the lock. A channel is an address; a panic of the code, a send on a closed
-- channel or a second close, is `none`. libp2p is a parameter: the ID of a new host, if there is one,
-- and the peers that it knows. The goroutines stand in a list; their steps are in Workers.
mod Channels
mod Methods
unfoldable pub use Channels.*
unfoldable pub use Methods.*
