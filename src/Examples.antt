-- ===== src/Examples.antt =====
-- Tests, and the theorems applied to small models.
mod Data
mod Plan
mod Transport
mod Units
mod Resolver
mod MetaServer
mod TooLarge
mod Barrier
mod Packing
mod Agreement
mod Colocate
mod RoundRobin
mod Statistics
