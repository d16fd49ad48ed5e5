-- ===== src/Examples.antt =====
-- The theorems at concrete inputs, on a host and a database made for the purpose.
mod Objects
mod Keys
mod Nodes
mod Databases
mod Api
mod Start
mod Restart
mod Durable
mod Lives
mod Server
mod Progress
mod Schedule
mod Mains
mod Terminal
mod Chain
mod Recovered
